-- ===== src/Msi/Overwrite.antt =====
-- Bytes written over those of a file, for `preserve_cabinet_metadata` of src/msi_recursive.cpp.
use aas_sign.Base.{
  ℕ, zero, suc, ◌+◌, ◌≤◌, ◌<◌, ◌≡◌, refl, sym, ap, ◌∙◌, arith, List, [], ◌∷◌, ◌++◌, length,
  length-append, length-take, length-drop, take, drop, drop-append, take-append,
}
use aas_sign.Pe.{read_at}
use aas_sign.Msi.Restore.{write_at}

-- The byte at a place, as far as the file goes.
abbrev pub byte_at : ℕ → List ℕ → List ℕ
byte_at i file = take 1 (drop i file)

-- The files are as long as one another, with the same bytes from lo to hi.
pub record Same (lo hi : ℕ) (file file' : List ℕ) : Type 0 where
  pub long : length file ≡ length file'
  pub bytes : (i : ℕ) → lo ≤ i → i < hi → byte_at i file ≡ byte_at i file'

pub Same-within :
    {lo hi lo' hi' : ℕ} {file file' : List ℕ}
    → lo ≤ lo'
    → hi' ≤ hi
    → Same lo hi file file'
    → Same lo' hi' file file'
Same-within h k s = record { long = s.long; bytes = λ i l m. s.bytes i (omega arith) (omega arith) }

pub Same-trans :
    {lo hi : ℕ} {file file' file'' : List ℕ}
    → Same lo hi file file'
    → Same lo hi file' file''
    → Same lo hi file file''
Same-trans s t = record { long = s.long ∙ t.long; bytes = λ i l m. s.bytes i l m ∙ t.bytes i l m }

-- n bytes are the first and the others.
slice-suc :
    (n : ℕ) (file : List ℕ) (c : ℕ)
    → take (suc n) (drop c file) ≡ byte_at c file ++ take n (drop (suc c) file)
slice-suc zero [] zero = refl
slice-suc (suc n) [] zero = refl
slice-suc n (x ∷ file) zero = refl
slice-suc zero [] (suc c) = refl
slice-suc (suc n) [] (suc c) = refl
slice-suc n (x ∷ file) (suc c) = slice-suc n file c

pub Same-slice :
    (n c : ℕ) {file file' : List ℕ}
    → Same c (c + n) file file'
    → take n (drop c file) ≡ take n (drop c file')
Same-slice zero c s = refl
Same-slice (suc n) c {file} {file'} s =
    slice-suc n file c
    ∙ ap (λ x. x ++ take n (drop (suc c) file)) (s.bytes c (omega arith) (omega arith))
    ∙ ap (λ x. byte_at c file' ++ x)
        (Same-slice n (suc c) (Same-within (omega arith) (omega arith) s))
    ∙ sym (slice-suc n file' c)

pub read_at-Same :
    (n c : ℕ) {file file' : List ℕ}
    → Same c (c + n) file file'
    → read_at file c n ≡ read_at file' c n
unfolding read_at
read_at-Same n c {file} {file'} s = rw (s.long, Same-slice n c s) refl

write_at-suc :
    (bytes : List ℕ) (o : ℕ) (x : ℕ) (file : List ℕ)
    → write_at (x ∷ file) (suc o) bytes ≡ x ∷ write_at file o bytes
unfolding write_at
write_at-suc bytes o x file =
    let e : suc o + length bytes ≡ suc (o + length bytes) = omega arith in
    ap (λ n. x ∷ (take o file ++ (bytes ++ drop n (x ∷ file)))) e

write_at-zero :
    (b : ℕ) (bytes : List ℕ) (x : ℕ) (file : List ℕ)
    → write_at (x ∷ file) 0 (b ∷ bytes) ≡ b ∷ write_at file 0 bytes
unfolding write_at
write_at-zero b bytes x file =
    let e : 0 + suc (length bytes) ≡ suc (0 + length bytes) = omega arith in
    ap (λ n. b ∷ (bytes ++ drop n (x ∷ file))) e

write_at-before :
    (bytes : List ℕ) (o : ℕ) (file : List ℕ) (i : ℕ)
    → o + length bytes ≤ length file
    → i < o
    → byte_at i (write_at file o bytes) ≡ byte_at i file
write_at-before bytes zero file i h k = absurd (omega arith)
write_at-before bytes (suc o) [] i h k = absurd (omega arith)
write_at-before bytes (suc o) (x ∷ file) zero h k = ap (byte_at 0) (write_at-suc bytes o x file)
write_at-before bytes (suc o) (x ∷ file) (suc i) h k =
    ap (byte_at (suc i)) (write_at-suc bytes o x file)
    ∙ write_at-before bytes o file i (omega arith) (omega arith)

write_at-behind :
    (bytes : List ℕ) (o : ℕ) (file : List ℕ) (i : ℕ)
    → o + length bytes ≤ length file
    → o + length bytes ≤ i
    → byte_at i (write_at file o bytes) ≡ byte_at i file
unfolding write_at
write_at-behind [] zero file i h k = refl
write_at-behind (b ∷ bytes) zero [] i h k = absurd (omega arith)
write_at-behind (b ∷ bytes) zero (x ∷ file) zero h k = absurd (omega arith)
write_at-behind (b ∷ bytes) zero (x ∷ file) (suc i) h k =
    ap (byte_at (suc i)) (write_at-zero b bytes x file)
    ∙ write_at-behind bytes zero file i (omega arith) (omega arith)
write_at-behind bytes (suc o) [] i h k = absurd (omega arith)
write_at-behind bytes (suc o) (x ∷ file) zero h k = absurd (omega arith)
write_at-behind bytes (suc o) (x ∷ file) (suc i) h k =
    ap (byte_at (suc i)) (write_at-suc bytes o x file)
    ∙ write_at-behind bytes o file i (omega arith) (omega arith)

module _ (bytes : List ℕ) (o : ℕ) (file : List ℕ) (h : o + length bytes ≤ length file) where
  write_at-long : length file ≡ length (write_at file o bytes)
  unfolding write_at
  write_at-long = omega (
    arith,
    length-append (take o file) (bytes ++ drop (o + length bytes) file),
    length-append bytes (drop (o + length bytes) file),
    length-take o file (omega arith),
    length-drop (o + length bytes) file,
  )

  pub write_at-Same_before : Same 0 o file (write_at file o bytes)
  write_at-Same_before = record {
    long = write_at-long;
    bytes = λ i l m. sym (write_at-before bytes o file i h m);
  }

  pub write_at-Same_behind : (hi : ℕ) → Same (o + length bytes) hi file (write_at file o bytes)
  write_at-Same_behind hi = record {
    long = write_at-long;
    bytes = λ i l m. sym (write_at-behind bytes o file i h l);
  }

  pub write_at-written : take (length bytes) (drop o (write_at file o bytes)) ≡ bytes
  unfolding write_at
  write_at-written =
      let rest = bytes ++ drop (o + length bytes) file in
      let e : drop o (take o file ++ rest) ≡ rest =
        ap (λ n. drop n (take o file ++ rest)) (sym (length-take o file (omega arith)))
        ∙ drop-append (take o file) rest in
      ap (take (length bytes)) e ∙ take-append bytes (drop (o + length bytes) file)
