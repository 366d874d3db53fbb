-- ===== src/Msi/Spread.antt =====
-- Where the folders of an inspected cabinet lie in its bytes.
use aas_sign.Base.{
  ℕ, zero, suc, ◌+◌, ◌-◌, bit_and, ltb, ◌==◌, ◌≡◌, refl, sym, subst, not, ◌||◌, List, [], ◌∷◌,
  length, drop, arith, ok, ok-injective, guard-eq-ok, >>=-eq-ok,
}
use aas_sign.Pe.{read_at}
use aas_sign.Msi.{u16, u32, expansion_limit}
use aas_sign.Msi.Folders.{Header, Folder, read_blocks, read_folder, read_folders}
use aas_sign.Msi.Cabinet.{place}

-- So many data blocks from one position to another, and the length that their headers give to their
-- data when it is expanded.
pub data Blocks (file : List ℕ) (reserve : ℕ) : ℕ → ℕ → ℕ → ℕ → Type 0 where
  no_block : (from : ℕ) → Blocks file reserve 0 from from 0
  block :
      {n from to expanded : ℕ} (header : List ℕ)
      → read_at file from 8 ≡ ok header
      → Blocks file reserve n (from + (8 + reserve + u16 (drop 4 header))) to expanded
      → Blocks file reserve (suc n) from to (u16 (drop 6 header) + expanded)

-- So many folders whose entries are in the file from a position on, and the length of all their data.
pub data Spread (file : List ℕ) (header : Header) : ℕ → ℕ → List Folder → ℕ → Type 0 where
  no_folder : (position : ℕ) → Spread file header position 0 [] 0
  folder :
      {position n expanded : ℕ} {folders : List Folder} (f : Folder) (entry : List ℕ)
      → read_at file position 8 ≡ ok entry
      → f.start ≡ u32 entry
      → Blocks file header.data_reserve (u16 (drop 4 entry)) f.start f.end f.expanded
      → Spread file header (position + (8 + header.folder_reserve)) n folders expanded
      → Spread file header position (suc n) (f ∷ folders) (f.expanded + expanded)

module _ (file : List ℕ) where
  read_blocks-Blocks :
      (reserve n : ℕ) (f : Folder) {f' : Folder}
      → read_blocks file reserve n f ≡ ok f'
      → (f'.start ≡ f.start)
        × (k : ℕ) × (f'.expanded ≡ f.expanded + k)
        × Blocks file reserve n f.end f'.end k
  unfolding read_blocks
  read_blocks-Blocks reserve zero f h =
      subst
        (λ y.
          (y.start ≡ f.start)
          × (k : ℕ) × (y.expanded ≡ f.expanded + k)
          × Blocks file reserve 0 f.end y.end k)
        (ok-injective h) (refl, 0, omega arith, no_block f.end)
  read_blocks-Blocks reserve (suc n) f {f'} h =
      let (e₁, h₁) = guard-eq-ok (not (ltb (length file - f.end) (8 + reserve))) _ h in
      let (header, e₂, h₂) = >>=-eq-ok (read_at file f.end 8) _ h₁ in
      let packed = u16 (drop 4 header) in
      let unpacked = u16 (drop 6 header) in
      let (e₃, h₃) =
        guard-eq-ok (not (unpacked == 0 || (ltb 32768 unpacked || packed == 0))) _ h₂ in
      let (e₄, h₄) = guard-eq-ok (not (ltb (length file - f.end) (8 + reserve + packed))) _ h₃ in
      let (same, k, sum, blocks) =
        read_blocks-Blocks reserve n
          (record f { end = f.end + (8 + reserve + packed); expanded = f.expanded + unpacked })
          h₄ in
      let all : f'.expanded ≡ f.expanded + (unpacked + k) = omega (arith, sum) in
      (same, unpacked + k, all, block header e₂ blocks)

  read_folder-Blocks :
      (header : Header) (position : ℕ) {f : Folder}
      → read_folder file header position ≡ ok f
      → (entry : List ℕ) × (read_at file position 8 ≡ ok entry)
        × (f.start ≡ u32 entry)
        × Blocks file header.data_reserve (u16 (drop 4 entry)) f.start f.end f.expanded
  unfolding read_folder
  read_folder-Blocks header position {f} h =
      let (entry, e₁, h₁) = >>=-eq-ok (read_at file position 8) _ h in
      let compression = bit_and (u16 (drop 6 entry)) 15 in
      let (e₂, h₂) =
        guard-eq-ok (compression == 0 || (compression == 1 || compression == 3)) _ h₁ in
      let (e₃, h₃) = guard-eq-ok (not (ltb (length file) (u32 entry))) _ h₂ in
      let (start, k, sum, blocks) =
        read_blocks-Blocks header.data_reserve (u16 (drop 4 entry))
          (record { start = u32 entry; end = u32 entry; expanded = 0; files = [] }) h₃ in
      let own : f.expanded ≡ k = omega (arith, sum) in
      let at_start : Blocks file header.data_reserve (u16 (drop 4 entry)) f.start f.end k =
        subst (λ s. Blocks file header.data_reserve (u16 (drop 4 entry)) s f.end k) (sym start)
          blocks in
      (
        entry,
        e₁,
        start,
        subst (Blocks file header.data_reserve (u16 (drop 4 entry)) f.start f.end) (sym own)
            at_start,
      )

  pub read_folders-Spread :
      (header : Header) (n position expanded : ℕ) {r : List Folder × (ℕ × ℕ)}
      → read_folders file header n position expanded ≡ ok r
      → (k : ℕ) × (r.1.1 ≡ expanded + k) × Spread file header position n r.0 k
  unfolding read_folders
  read_folders-Spread header zero position expanded h =
      subst (λ r. (k : ℕ) × (r.1.1 ≡ expanded + k) × Spread file header position 0 r.0 k)
        (ok-injective h) (0, omega arith, no_folder position)
  read_folders-Spread header (suc n) position expanded h =
      let (f, e₁, h₁) = >>=-eq-ok (read_folder file header position) _ h in
      let (e₂, h₂) = guard-eq-ok (not (ltb (expansion_limit - expanded) f.expanded)) _ h₁ in
      let (rest, e₃, h₃) =
        >>=-eq-ok
          (read_folders file header n (position + (8 + header.folder_reserve))
            (expanded + f.expanded))
          _ h₂ in
      let (entry, read, start, blocks) = read_folder-Blocks header position e₁ in
      let (k, total, spread) = read_folders-Spread header n _ _ e₃ in
      let all : rest.1.1 ≡ expanded + (f.expanded + k) = omega (arith, total) in
      subst (λ r. (k : ℕ) × (r.1.1 ≡ expanded + k) × Spread file header position (suc n) r.0 k)
        (ok-injective h₃) (f.expanded + k, all, folder f entry read start blocks spread)

  pub place-Spread :
      (header : Header) (folders : List Folder) (i position n offset size total : ℕ)
      {placed : List Folder}
      → Spread file header position n folders total
      → place folders i offset size ≡ ok placed
      → Spread file header position n placed total
  unfolding place
  place-Spread header [] i position zero offset size total spread h = cc
  place-Spread header (f ∷ folders) i position zero offset size total spread h = elim spread [ ]
  place-Spread header [] i position (suc n) offset size total spread h = elim spread [ ]
  place-Spread header (f ∷ folders) zero position (suc n) offset size _
        (folder {expanded = k} _ entry e start blocks rest) h =
      let (t, h₁) =
        guard-eq-ok (not (ltb f.expanded offset || ltb (f.expanded - offset) size)) _ h in
      subst (λ fs. Spread file header position (suc n) fs (f.expanded + k)) (ok-injective h₁)
        (folder _ entry e start blocks rest)
  place-Spread header (f ∷ folders) (suc i) position (suc n) offset size _
        (folder {expanded = k} _ entry e start blocks rest) h =
      let (placed, e₁, h₁) = >>=-eq-ok (place folders i offset size) _ h in
      subst (λ fs. Spread file header position (suc n) fs (f.expanded + k)) (ok-injective h₁)
        (folder f entry e start blocks (place-Spread header folders i _ n offset size _ rest e₁))
