-- ===== src/Pe/Laws.antt =====
-- About the walk over the certificate table.
use aas_sign.Base.{
  ℕ, String, zero, suc, ◌+◌, ◌-◌, ◌≤◌, ◌≡◌, ◌≢◌, refl, ap, ◌∙◌, arith, ltb, ◌==◌, Bool, true, false,
  not, ◌&&◌, ◌||◌, List, [], ◌∷◌, take, drop, Result, ok, stuck, ◌>>◌, guard, >>=-eq-ok,
  >>=-ne-stuck, ok-ne-stuck, total_rules, bytes_eq, codes, if◌then◌else◌,
}
use aas_sign.X509.{der_read_tlv}
use aas_sign.X509.Reader.{der_read_tlv-ne-stuck}
use aas_sign.Cms.Signers.{cms_has_signer}
use aas_sign.Cms.Total.{cms_readers_end}
use aas_sign.Pe.{
  is_valid_entry, le16, le32, read_at, zeros, entry_step, check_pkcs7, check_entry, check_entries,
  check_table, check_directory, check_directories, directories, pe_has_signature,
}

has_signer_ends : (pkcs7 : List ℕ) → cms_has_signer pkcs7 ≢ stuck
has_signer_ends pkcs7 = (cms_readers_end pkcs7).1

read_at-ne-stuck : (file : List ℕ) (offset n : ℕ) → read_at file offset n ≢ stuck
unfolding read_at
read_at-ne-stuck file offset n = search (total_rules) depth 20

entry_step-ne-stuck : (n len : ℕ) → entry_step n len ≢ stuck
unfolding entry_step
entry_step-ne-stuck n len = search (total_rules) depth 20

check_pkcs7-ne-stuck : (pkcs7 : List ℕ) → check_pkcs7 pkcs7 ≢ stuck
unfolding check_pkcs7
check_pkcs7-ne-stuck pkcs7 = search (total_rules, der_read_tlv-ne-stuck, has_signer_ends) depth 30

check_entry-ne-stuck : (file : List ℕ) (offset len : ℕ) → check_entry file offset len ≢ stuck
unfolding check_entry
check_entry-ne-stuck file offset len =
    search (total_rules, read_at-ne-stuck, check_pkcs7-ne-stuck, entry_step-ne-stuck) depth 40

entry_step_bounds : (n len a : ℕ) → 8 ≤ n → n ≤ len → entry_step n len ≡ ok a → (8 ≤ a) × (a ≤ len)
unfolding entry_step
entry_step_bounds n len a h k e = ground arith

guard-inv :
    {A : Type 0} (b : Bool) (why : String) (m : Result A) {a : A}
    → (guard b why >> m) ≡ ok a
    → (b ≡ true) × (m ≡ ok a)
guard-inv true why m h = (refl, h)
guard-inv false why m h = cc

guard-eq : (b : Bool) (why : String) {u : Unit {0}} → guard b why ≡ ok u → b ≡ true
guard-eq true why h = refl
guard-eq false why h = cc

valid_bounds : (len n : ℕ) (cert : List ℕ) → is_valid_entry len n cert ≡ true → (8 ≤ n) × (n ≤ len)
unfolding is_valid_entry
valid_bounds len n cert h = ground arith

-- What a checked entry has shown: it is not longer than the table, and it holds a signer.
abbrev Entry : List ℕ → ℕ → ℕ → ℕ → Type 0
Entry file offset len a =
    (8 ≤ a)
    × (a ≤ len)
    × ((pkcs7 : List ℕ) × (n : ℕ) × (read_at file (offset + 8) n ≡ ok pkcs7)
        × ((count : ℕ) × (cms_has_signer (take count pkcs7) ≡ ok true)))

check_pkcs7-signer :
    (pkcs7 : List ℕ) {a : Unit {0}}
    → check_pkcs7 pkcs7 ≡ ok a
    → (count : ℕ) × (cms_has_signer (take count pkcs7) ≡ ok true)
unfolding check_pkcs7
check_pkcs7-signer pkcs7 h =
    let (der, e, h₁) = >>=-eq-ok (der_read_tlv pkcs7) _ h in
    let (z, h₂) = guard-inv (zeros (drop der.total_len pkcs7)) _ _ h₁ in
    let (signer, e₂, h₃) = >>=-eq-ok (cms_has_signer (take der.total_len pkcs7)) _ h₂ in
    (der.total_len, e₂ ∙ ap ok (guard-eq signer _ h₃))

check_entry-Entry :
    (file : List ℕ) (offset len a : ℕ)
    → check_entry file offset len ≡ ok a
    → Entry file offset len a
unfolding check_entry
check_entry-Entry file offset len a h =
    let (b₁, h₁) = guard-inv (not (ltb len 8)) _ _ h in
    let (cert, e₂, h₂) = >>=-eq-ok (read_at file offset 8) _ h₁ in
    let (b₃, h₃) = guard-inv (is_valid_entry len (le32 cert) cert) _ _ h₂ in
    let (pkcs7, e₄, h₄) = >>=-eq-ok (read_at file (offset + 8) (le32 cert - 8)) _ h₃ in
    let (u, e₅, h₅) = >>=-eq-ok (check_pkcs7 pkcs7) _ h₄ in
    let (k, l) = valid_bounds len (le32 cert) cert b₃ in
    let (k', l') = entry_step_bounds (le32 cert) len a k l h₅ in
    (k', l', (pkcs7, le32 cert - 8, e₄, check_pkcs7-signer pkcs7 e₅))

check_entries_end :
    (fuel : ℕ) (file : List ℕ) (offset len : ℕ) (found : Bool)
    → len ≤ fuel
    → check_entries fuel file offset len found ≢ stuck
unfolding check_entries
check_entries_end fuel file offset zero found h = ok-ne-stuck found
check_entries_end zero file offset (suc len) found h = absurd (omega arith)
check_entries_end (suc fuel) file offset (suc len) found h =
    >>=-ne-stuck (check_entry file offset (suc len)) _ (check_entry-ne-stuck file offset (suc len))
      (λ a e.
        let p = check_entry-Entry file offset (suc len) a e in
        check_entries_end fuel file (offset + a) (suc len - a) true (omega (arith, p.0)))

check_table-ne-stuck : (file : List ℕ) (e offset len : ℕ) → check_table file e offset len ≢ stuck
unfolding check_table
check_table-ne-stuck file e offset len =
    let h = check_entries_end len file offset len false (omega arith) in
    search (total_rules, h) depth 30

check_directory-ne-stuck :
    (file : List ℕ) (pe opt_len dirs : ℕ) → check_directory file pe opt_len dirs ≢ stuck
unfolding check_directory
check_directory-ne-stuck file pe opt_len dirs =
    search (total_rules, read_at-ne-stuck, check_table-ne-stuck) depth 30

check_directories-ne-stuck :
    (file : List ℕ) (pe opt_len dirs : ℕ) → check_directories file pe opt_len dirs ≢ stuck
unfolding check_directories
check_directories-ne-stuck file pe opt_len dirs =
    search (total_rules, read_at-ne-stuck, check_directory-ne-stuck) depth 30

-- On every file, well formed or not, the test for a signature returns or throws: its walk over the
-- certificate table goes forward with every entry.
pub pe_has_signature-ne-stuck : (file : List ℕ) → pe_has_signature file ≢ stuck
unfolding pe_has_signature
pe_has_signature-ne-stuck file =
    search (total_rules, read_at-ne-stuck, check_directories-ne-stuck) depth 40

if-false : (b : Bool) {m : Result Bool} → (if b then ok false else m) ≡ ok true → m ≡ ok true
if-false true h = cc
if-false false h = h

if-true : (b : Bool) {m : Result Bool} → (if b then m else ok false) ≡ ok true → m ≡ ok true
if-true true h = h
if-true false h = cc

-- Somewhere in the file there is a PKCS#7 with a signer.
abbrev pub HoldsSigner : List ℕ → Type 0
HoldsSigner file =
    (offset : ℕ) × (n : ℕ) × (pkcs7 : List ℕ) × (read_at file offset n ≡ ok pkcs7)
    × ((count : ℕ) × (cms_has_signer (take count pkcs7) ≡ ok true))

check_entries-HoldsSigner :
    (fuel : ℕ) (file : List ℕ) (offset len : ℕ)
    → check_entries fuel file offset len false ≡ ok true
    → HoldsSigner file
unfolding check_entries
check_entries-HoldsSigner fuel file offset zero h = cc
check_entries-HoldsSigner zero file offset (suc len) h = cc
check_entries-HoldsSigner (suc fuel) file offset (suc len) h =
    let (a, e, h₁) = >>=-eq-ok (check_entry file offset (suc len)) _ h in
    let (k, l, (pkcs7, n, r, s)) = check_entry-Entry file offset (suc len) a e in
    (offset + 8, n, pkcs7, r, s)

check_table-HoldsSigner :
    (file : List ℕ) (end offset len : ℕ)
    → check_table file end offset len ≡ ok true
    → HoldsSigner file
unfolding check_table
check_table-HoldsSigner file end offset len h =
    let (b, h₁) = guard-inv _ _ _ (if-false (offset == 0 && len == 0) h) in
    check_entries-HoldsSigner len file offset len h₁

check_directory-HoldsSigner :
    (file : List ℕ) (pe opt_len dirs : ℕ)
    → check_directory file pe opt_len dirs ≡ ok true
    → HoldsSigner file
unfolding check_directory
check_directory-HoldsSigner file pe opt_len dirs h =
    let (b, h₁) = guard-inv (not (ltb opt_len (dirs + 40))) _ _ h in
    let (entry, e, h₂) = >>=-eq-ok (read_at file (pe + 24 + dirs + 32) 8) _ h₁ in
    check_table-HoldsSigner file (pe + 24 + opt_len) (le32 entry) (le32 (drop 4 entry)) h₂

check_directories-HoldsSigner :
    (file : List ℕ) (pe opt_len dirs : ℕ)
    → check_directories file pe opt_len dirs ≡ ok true
    → HoldsSigner file
unfolding check_directories
check_directories-HoldsSigner file pe opt_len dirs h =
    let (b, h₁) = guard-inv (not (dirs == 0 || ltb opt_len dirs)) _ _ h in
    let (count, e, h₂) = >>=-eq-ok (read_at file (pe + 24 + dirs - 4) 4) _ h₁ in
    check_directory-HoldsSigner file pe opt_len dirs (if-true (ltb 4 (le32 count)) h₂)

-- A file that the program takes for signed holds a PKCS#7 with a signer.
pub pe_has_signature-HoldsSigner :
    (file : List ℕ) → pe_has_signature file ≡ ok true → HoldsSigner file
unfolding pe_has_signature
pe_has_signature-HoldsSigner file h =
    let (dos, e, h₁) = >>=-eq-ok (read_at file 0 64) _ h in
    let (b, h₂) = guard-inv (bytes_eq (take 2 dos) (codes "MZ")) _ _ h₁ in
    let (header, e₂, h₃) = >>=-eq-ok (read_at file (le32 (drop 60 dos)) 26) _ h₂ in
    let (b₂, h₄) = guard-inv (bytes_eq (take 4 header) (80 ∷ 69 ∷ 0 ∷ 0 ∷ [])) _ _ h₃ in
    check_directories-HoldsSigner file (le32 (drop 60 dos)) (le16 (drop 20 header))
      (directories (le16 (drop 24 header))) h₄
