-- ===== src/Msi/Placed.antt =====
-- Where the members of an inspected cabinet lie in the data of its folders.
use aas_sign.Base.{
  ℕ, zero, suc, ◌+◌, ◌-◌, ◌<◌, ltb, ◌==◌, ◌≡◌, refl, sym, ap, ◌∙◌, subst, ==_refl, Bool-cases, inl,
  inr, false, not, ◌&&◌, ◌||◌, if◌then◌else◌, List, [], ◌∷◌, ◌++◌, length, drop, arith, ok,
  ok-injective, guard-eq-ok, >>=-eq-ok, Text,
}
use aas_sign.Pe.{read_at}
use aas_sign.Msi.{u16, u32, safe_name, member_limit, CabinetMember}
use aas_sign.Msi.Ranges.{Range}
use aas_sign.Msi.Spread.{Spread, read_folders-Spread, place-Spread}
use aas_sign.Msi.Folders.{Header, Folder, read_header, read_blocks, read_folder, read_folders}
use aas_sign.Msi.Cabinet.{
  Table, Layout, place, has_name, read_name, read_member, read_members, read_layout,
}

-- The bytes that a record of the file table takes for its member: so many behind an offset of the data
-- of a folder.
pub record Span : Type 0 where
  pub folder : ℕ
  pub offset : ℕ
  pub size : ℕ

-- The records from one position of the file to another, their members and their spans.
pub data Walk (file : List ℕ) (first : ℕ) : ℕ → List CabinetMember → List Span → Type 0 where
  at_first : Walk file first first [] []
  next :
      {cursor : ℕ} {members : List CabinetMember} {spans : List Span} (f : List ℕ)
      (m : CabinetMember) (behind : ℕ)
      → Walk file first cursor members spans
      → read_at file cursor 16 ≡ ok f
      → read_name file 256 (cursor + 16) ≡ ok (m.name, behind)
      → m.size ≡ u32 f
      → Walk file first behind
          (members ++ m ∷ [])
          (spans ++ record { folder = u16 (drop 8 f); offset = u32 (drop 4 f); size = u32 f } ∷ [])

-- The ranges of a folder that the spans take.
unfoldable pub spans_in : ℕ → List Span → List Range
spans_in i [] = []
spans_in i (s ∷ spans) =
    if s.folder == i then (s.offset, s.offset + s.size) ∷ spans_in i spans else spans_in i spans

-- The folders, the first of number i, have the ranges of the spans and no others.
abbrev pub Laid : ℕ → List Folder → List Span → Type 0
Laid i [] spans = Unit
Laid i (f ∷ folders) spans = (f.files ≡ spans_in i spans) × Laid (suc i) folders spans

spans_in-same :
    (i : ℕ) (spans : List Span) (s : Span)
    → s.folder ≡ i
    → spans_in i (spans ++ s ∷ []) ≡ spans_in i spans ++ (s.offset, s.offset + s.size) ∷ []
unfolding spans_in
spans_in-same i [] s h = rw (h, ==_refl i) refl
spans_in-same i (t ∷ spans) s h = elim (Bool-cases (t.folder == i)) [
  | inl e ↦ rw (e, spans_in-same i spans s h) refl
  | inr e ↦ rw (e, spans_in-same i spans s h) refl
]

spans_in-other :
    (i : ℕ) (spans : List Span) (s : Span)
    → (s.folder == i) ≡ false
    → spans_in i (spans ++ s ∷ []) ≡ spans_in i spans
unfolding spans_in
spans_in-other i [] s h = rw h refl
spans_in-other i (t ∷ spans) s h = rw (spans_in-other i spans s h) refl

less-not : (a i : ℕ) → a < i → (a == i) ≡ false
less-not a i h = ground arith

more-not : (a i k : ℕ) → a ≡ i + suc k → (a == i) ≡ false
more-not a i k h = ground arith

Laid-other :
    (i : ℕ) (folders : List Folder) (spans : List Span) (s : Span)
    → s.folder < i
    → Laid i folders spans
    → Laid i folders (spans ++ s ∷ [])
Laid-other i [] spans s h l = tt
Laid-other i (f ∷ folders) spans s h (e, l) = (
  e ∙ sym (spans_in-other i spans s (less-not s.folder i h)),
  Laid-other (suc i) folders spans s (omega arith) l,
)

place-Laid :
    (i : ℕ) (folders : List Folder) (k : ℕ) (spans : List Span) (s : Span) {placed : List Folder}
    → s.folder ≡ i + k
    → Laid i folders spans
    → place folders k s.offset s.size ≡ ok placed
    → Laid i placed (spans ++ s ∷ [])
unfolding place
place-Laid i [] k spans s n l h = cc
place-Laid i (f ∷ folders) zero spans s n (e, l) h =
    let (t, h₁) =
      guard-eq-ok (not (ltb f.expanded s.offset || ltb (f.expanded - s.offset) s.size)) _ h in
    subst (λ fs. Laid i fs (spans ++ s ∷ [])) (ok-injective h₁)
      (
        ap (λ r. r ++ (s.offset, s.offset + s.size) ∷ []) e
            ∙ sym (spans_in-same i spans s (omega arith)),
        Laid-other (suc i) folders spans s (omega arith) l,
      )
place-Laid i (f ∷ folders) (suc k) spans s n (e, l) h =
    let (rest, e₁, h₁) = >>=-eq-ok (place folders k s.offset s.size) _ h in
    subst (λ fs. Laid i fs (spans ++ s ∷ [])) (ok-injective h₁)
      (
        e ∙ sym (spans_in-other i spans s (more-not s.folder i k n)),
        place-Laid (suc i) folders k spans s (omega arith) l e₁,
      )

module _ (file : List ℕ) where
  read_blocks-files :
      (reserve n : ℕ) (f : Folder) {f' : Folder}
      → read_blocks file reserve n f ≡ ok f'
      → f'.files ≡ f.files
  unfolding read_blocks
  read_blocks-files reserve zero f h = ap (λ g. g.files) (sym (ok-injective h))
  read_blocks-files reserve (suc n) f h =
      let (e₁, h₁) = guard-eq-ok (not (ltb (length file - f.end) (8 + reserve))) _ h in
      let (block, e₂, h₂) = >>=-eq-ok (read_at file f.end 8) _ h₁ in
      let packed = u16 (drop 4 block) in
      let (e₃, h₃) =
        guard-eq-ok
          (not (u16 (drop 6 block) == 0 || (ltb 32768 (u16 (drop 6 block)) || packed == 0))) _ h₂ in
      let (e₄, h₄) = guard-eq-ok (not (ltb (length file - f.end) (8 + reserve + packed))) _ h₃ in
      read_blocks-files reserve n
        (record f {
          end = f.end + (8 + reserve + packed);
          expanded = f.expanded + u16 (drop 6 block);
        })
        h₄

  read_folder-files :
      (header : Header) (position : ℕ) {f : Folder}
      → read_folder file header position ≡ ok f
      → f.files ≡ []
  unfolding read_folder
  read_folder-files header position h =
      let (b, e₁, h₁) = >>=-eq-ok (read_at file position 8) _ h in
      let (e₂, h₂) = guard-eq-ok _ _ h₁ in
      let (e₃, h₃) = guard-eq-ok (not (ltb (length file) (u32 b))) _ h₂ in
      read_blocks-files header.data_reserve _
        (record { start = u32 b; end = u32 b; expanded = 0; files = [] }) h₃

  read_folders-Laid :
      (header : Header) (i n position expanded : ℕ) {r : List Folder × (ℕ × ℕ)}
      → read_folders file header n position expanded ≡ ok r
      → Laid i r.0 []
  unfolding read_folders spans_in
  read_folders-Laid header i zero position expanded h =
      subst (λ r. Laid i r.0 []) (ok-injective h) tt
  read_folders-Laid header i (suc n) position expanded h =
      let (folder, e₁, h₁) = >>=-eq-ok (read_folder file header position) _ h in
      let (e₂, h₂) = guard-eq-ok _ _ h₁ in
      let (rest, e₃, h₃) = >>=-eq-ok (read_folders file header n _ _) _ h₂ in
      let both : Laid i (folder ∷ rest.0) [] =
        (read_folder-files header position e₁, read_folders-Laid header (suc i) n _ _ e₃) in
      subst (λ r. Laid i r.0 []) (ok-injective h₃) both

  -- The spans of a table that has been read from a position on.
  pub record IsPlaced (header : Header) (total : ℕ) (t : Table) : Type 0 where
    pub spread : Spread file header header.first_folder header.folders t.folders total
    pub spans : List Span
    pub walked : Walk file header.file_table t.cursor t.members spans
    pub laid : Laid 0 t.folders spans

  read_member-IsPlaced :
      (header : Header) (total n_folders : ℕ) (workspace : Text) (t : Table) {t' : Table}
      → IsPlaced header total t
      → read_member file n_folders workspace t ≡ ok t'
      → IsPlaced header total t'
  unfolding read_member
  read_member-IsPlaced header total n_folders workspace t k h =
      let (e₁, h₁) = guard-eq-ok (not (ltb (length file - t.cursor) 17)) _ h in
      let (f, e₂, h₂) = >>=-eq-ok (read_at file t.cursor 16) _ h₁ in
      let (e₃, h₃) = guard-eq-ok (ltb (u16 (drop 8 f)) n_folders) _ h₂ in
      let (folders, e₄, h₄) =
        >>=-eq-ok (place t.folders (u16 (drop 8 f)) (u32 (drop 4 f)) (u32 f)) _ h₃ in
      let (named, e₅, h₅) = >>=-eq-ok (read_name file 256 (t.cursor + 16)) _ h₄ in
      let (e₆, h₆) = guard-eq-ok (safe_name named.0 && not (has_name named.0 t.members)) _ h₅ in
      subst (IsPlaced header total) (ok-injective h₆) (record {
        spans = _;
        spread = place-Spread file header t.folders (u16 (drop 8 f)) _ _ _ _ _ k.spread e₄;
        walked = next f _ named.1 k.walked e₂ e₅ refl;
        laid = place-Laid 0 t.folders (u16 (drop 8 f)) k.spans _ (omega arith) k.laid e₄;
      })

  read_members-IsPlaced :
      (header : Header) (total n_folders n : ℕ) (workspace : Text) (t : Table) {t' : Table}
      → IsPlaced header total t
      → read_members file n_folders n workspace t ≡ ok t'
      → IsPlaced header total t'
  unfolding read_members
  read_members-IsPlaced header total n_folders zero workspace t k h =
      subst (IsPlaced header total) (ok-injective h) k
  read_members-IsPlaced header total n_folders (suc n) workspace t k h =
      let (t₁, e, h₁) = >>=-eq-ok (read_member file n_folders workspace t) _ h in
      read_members-IsPlaced header total n_folders n workspace t₁
        (read_member-IsPlaced header total n_folders workspace t k e) h₁

  pub read_layout-IsPlaced :
      (workspace : Text) (count : ℕ) {layout : Layout}
      → read_layout file workspace count ≡ ok layout
      → (header : Header) × (read_header file ≡ ok header)
        × IsPlaced header layout.expanded layout.table
  unfolding read_layout
  read_layout-IsPlaced workspace count h =
      let (header, e₁, h₁) = >>=-eq-ok (read_header file) _ h in
      let (read, e₂, h₂) =
        >>=-eq-ok (read_folders file header header.folders header.first_folder 0) _ h₁ in
      let (e₃, h₃) =
        guard-eq-ok (not (ltb header.file_table read.1.0 || ltb (length file) header.file_table)) _
          h₂ in
      let (e₄, h₄) = guard-eq-ok (not (ltb (member_limit - count) header.files)) _ h₃ in
      let start : Table = record {
        folders = read.0;
        members = [];
        cursor = header.file_table;
        count = count;
      } in
      let (table, e₅, h₅) =
        >>=-eq-ok (read_members file header.folders header.files workspace start) _ h₄ in
      let (total, same, spread) = read_folders-Spread file header _ _ _ e₂ in
      let all : read.1.1 ≡ total = omega (arith, same) in
      let first : IsPlaced header read.1.1 start = record {
        spread =
            subst (Spread file header header.first_folder header.folders read.0) (sym all) spread;
        spans = [];
        walked = at_first;
        laid = read_folders-Laid header 0 _ _ _ e₂;
      } in
      (
        header,
        e₁,
        subst (λ y. IsPlaced header y.expanded y.table) (ok-injective h₅)
            (read_members-IsPlaced header read.1.1 header.folders header.files workspace start first
              e₅),
      )
