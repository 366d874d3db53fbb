-- ===== src/Msi/Bounds.antt =====
-- The folders of an inspected cabinet lie in the file, and the members in the folders.
use aas_sign.Base.{
  ℕ, zero, suc, ◌+◌, ◌-◌, ◌≤◌, ltb, ◌==◌, ◌≡◌, ◌≢◌, refl, sym, subst, true, false, not, ◌||◌, List,
  [], ◌∷◌, length, All, All-append, drop, arith, ok, ok-injective, guard-eq-ok, >>=-eq-ok,
}
use aas_sign.Pe.{read_at}
use aas_sign.Msi.{u16, u32}
use aas_sign.Msi.Folders.{Header, Folder, read_blocks, read_folder, read_folders}
use aas_sign.Msi.Cabinet.{place}

-- A folder whose data is in the file, and whose members are in its data.
pub record IsFolder (file : List ℕ) (f : Folder) : Type 0 where
  pub ordered : f.start ≤ f.end
  pub in_file : f.end ≤ length file
  pub in_data : All (λ r. (r.0 ≤ r.1) × (r.1 ≤ f.expanded)) f.files

true-ne-false : true ≢ false
true-ne-false e = cc

module _ (file : List ℕ) where
  read_blocks-IsFolder :
      (reserve n : ℕ) (folder : Folder) {f : Folder}
      → folder.start ≤ folder.end
      → folder.end ≤ length file
      → folder.files ≡ []
      → read_blocks file reserve n folder ≡ ok f
      → IsFolder file f
  unfolding read_blocks
  read_blocks-IsFolder reserve zero folder o l e h =
      subst (IsFolder file) (ok-injective h) (record {
        ordered = o;
        in_file = l;
        in_data = subst (All (λ r. (r.0 ≤ r.1) × (r.1 ≤ folder.expanded))) (sym e) tt;
      })
  read_blocks-IsFolder reserve (suc n) folder o l e h =
      let (e₁, h₁) = guard-eq-ok (not (ltb (length file - folder.end) (8 + reserve))) _ h in
      let (block, e₂, h₂) = >>=-eq-ok (read_at file folder.end 8) _ h₁ in
      let packed = u16 (drop 4 block) in
      let (e₃, h₃) =
        guard-eq-ok
          (not (u16 (drop 6 block) == 0 || (ltb 32768 (u16 (drop 6 block)) || packed == 0))) _ h₂ in
      let (e₄, h₄) =
        guard-eq-ok (not (ltb (length file - folder.end) (8 + reserve + packed))) _ h₃ in
      let fits : folder.end + (8 + reserve + packed) ≤ length file = ground arith in
      read_blocks-IsFolder reserve n
        (record folder {
          end = folder.end + (8 + reserve + packed);
          expanded = folder.expanded + u16 (drop 6 block);
        })
        (omega arith) fits e h₄

  read_folder-IsFolder :
      (header : Header) (position : ℕ) {f : Folder}
      → read_folder file header position ≡ ok f
      → IsFolder file f
  unfolding read_folder
  read_folder-IsFolder header position h =
      let (b, e₁, h₁) = >>=-eq-ok (read_at file position 8) _ h in
      let (e₂, h₂) = guard-eq-ok _ _ h₁ in
      let (e₃, h₃) = guard-eq-ok (not (ltb (length file) (u32 b))) _ h₂ in
      let inside : u32 b ≤ length file = ground arith in
      read_blocks-IsFolder header.data_reserve _
        (record { start = u32 b; end = u32 b; expanded = 0; files = [] }) (omega arith) inside refl
        h₃

  pub read_folders-All :
      (header : Header) (n position expanded : ℕ) {r : List Folder × (ℕ × ℕ)}
      → read_folders file header n position expanded ≡ ok r
      → All (IsFolder file) r.0
  unfolding read_folders
  read_folders-All header zero position expanded h =
      subst (λ r. All (IsFolder file) r.0) (ok-injective h) tt
  read_folders-All header (suc n) position expanded h =
      let (folder, e₁, h₁) = >>=-eq-ok (read_folder file header position) _ h in
      let (e₂, h₂) = guard-eq-ok _ _ h₁ in
      let (rest, e₃, h₃) = >>=-eq-ok (read_folders file header n _ _) _ h₂ in
      let both : All (IsFolder file) (folder ∷ rest.0) =
        (read_folder-IsFolder header position e₁, read_folders-All header n _ _ e₃) in
      subst (λ r. All (IsFolder file) r.0) (ok-injective h₃) both

  pub place-All :
      (folders : List Folder) (i offset size : ℕ) {placed : List Folder}
      → All (IsFolder file) folders
      → place folders i offset size ≡ ok placed
      → All (IsFolder file) placed
  unfolding place
  place-All [] i offset size a h = cc
  place-All (f ∷ folders) zero offset size (k, a) h =
      let (e, h₁) =
        guard-eq-ok (not (ltb f.expanded offset || ltb (f.expanded - offset) size)) _ h in
      let fits : offset + size ≤ f.expanded = ground arith in
      subst (All (IsFolder file)) (ok-injective h₁) (
        record {
          ordered = k.ordered;
          in_file = k.in_file;
          in_data =
              All-append _ f.files ((offset, offset + size) ∷ []) k.in_data
                ((omega arith, fits), tt);
        },
        a,
      )
  place-All (f ∷ folders) (suc i) offset size (k, a) h =
      let (rest, e, h₁) = >>=-eq-ok (place folders i offset size) _ h in
      subst (All (IsFolder file)) (ok-injective h₁) (k, place-All folders i offset size a e)
