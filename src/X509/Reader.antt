-- ===== src/X509/Reader.antt =====
-- What `der_read_tlv` accepts: a TLV inside the buffer, read without looking past its end.
use aas_sign.Base.{
  ℕ, suc, ◌+◌, ◌-◌, ◌≤◌, ◌≡◌, ap, sym, subst, arith, List, [], ◌∷◌, ◌++◌, ok, stuck, bit_and,
  length, take, drop, length-take, length-drop, take-append-le, drop-append-le, length-append, ◌≢◌,
  take-append, drop-append, take-append-drop,
}
use aas_sign.X509.{TlvView, read_length, finish_tlv, der_read_tlv}

-- Where a view lies in the buffer that it was read from.
pub record IsWithin (bytes : List ℕ) (v : TlvView) : Type 0 where
  pub header : v.content_len + 2 ≤ v.total_len
  pub short_header : v.total_len ≤ v.content_len + 6
  pub fits : v.total_len ≤ length bytes
  pub sized : length v.content ≡ v.content_len
  pub placed : v.content ≡ take v.content_len (drop (v.total_len - v.content_len) bytes)

finish_tlv-inv :
    (len tag pos n : ℕ) (rest : List ℕ) (v : TlvView)
    → finish_tlv len tag pos n rest ≡ ok v
    → (pos + n ≤ len)
      × (v ≡ record { tag = tag; content = take n rest; content_len = n; total_len = pos + n })
unfolding finish_tlv
finish_tlv-inv len tag pos n rest v h = (ground arith, ground arith)

finish_tlv-IsWithin :
    (tag pos n : ℕ) (bytes : List ℕ) (v : TlvView)
    → 2 ≤ pos
    → pos ≤ 6
    → pos ≤ length bytes
    → finish_tlv (length bytes) tag pos n (drop pos bytes) ≡ ok v
    → IsWithin bytes v
finish_tlv-IsWithin tag pos n bytes v lo hi p h =
    let (fits, e) = finish_tlv-inv (length bytes) tag pos n (drop pos bytes) v h in
    let room : n ≤ length (drop pos bytes) = omega (arith, length-drop pos bytes) in
    let back : pos + n - n ≡ pos = omega arith in
    subst (IsWithin bytes) (sym e) (record {
      header = omega arith;
      short_header = omega arith;
      fits = fits;
      sized = length-take n (drop pos bytes) room;
      placed = ap (λ k. take n (drop k bytes)) (sym back);
    })

finish_tlv-append :
    (len tag pos n : ℕ) (rest more : List ℕ) (v : TlvView)
    → len ≡ pos + length rest
    → finish_tlv len tag pos n rest ≡ ok v
    → finish_tlv (len + length more) tag pos n (rest ++ more) ≡ ok v
unfolding finish_tlv
finish_tlv-append len tag pos n rest more v e h = ground (arith, take-append-le n rest more)

pub der_read_tlv-append :
    (bytes more : List ℕ) (v : TlvView)
    → der_read_tlv bytes ≡ ok v
    → der_read_tlv (bytes ++ more) ≡ ok v
unfolding der_read_tlv
der_read_tlv-append [] more v h = cc
der_read_tlv-append (t ∷ []) more v h = cc
der_read_tlv-append (t ∷ b ∷ rest) more v h =
    let n = bit_and b 0x7f in
    ground (
      arith,
      length-append rest more,
      finish_tlv-append (length (t ∷ b ∷ rest)) t 2 b rest more v,
      finish_tlv-append (length (t ∷ b ∷ rest)) t (2 + n) (read_length 0 (take n rest))
          (drop n rest) more v,
      take-append-le n rest more,
      drop-append-le n rest more,
      length-drop n rest,
    )

-- A view that `der_read_tlv` returns lies inside the buffer: a header of two to six bytes and the
-- content behind it end within the buffer, and the content is the bytes at that place.
pub der_read_tlv-IsWithin :
    (bytes : List ℕ) (v : TlvView) → der_read_tlv bytes ≡ ok v → IsWithin bytes v
unfolding der_read_tlv
der_read_tlv-IsWithin [] v h = cc
der_read_tlv-IsWithin (t ∷ []) v h = cc
der_read_tlv-IsWithin (t ∷ b ∷ rest) v h =
    let n = bit_and b 0x7f in
    let two : 2 + n ≡ suc (suc n) = omega arith in
    ground (
      arith,
      finish_tlv-IsWithin t 2 b (t ∷ b ∷ rest) v,
      finish_tlv-IsWithin t (2 + n) (read_length 0 (take n rest)) (t ∷ b ∷ rest) v,
      ap (λ k. drop k (t ∷ b ∷ rest)) two,
    )

pub der_read_tlv-ne-stuck : (bytes : List ℕ) → der_read_tlv bytes ≢ stuck
unfolding der_read_tlv
der_read_tlv-ne-stuck [] = λ e. cc
der_read_tlv-ne-stuck (t ∷ []) = λ e. cc
der_read_tlv-ne-stuck (t ∷ b ∷ rest) = ground arith

finish_tlv-prefix :
    (len tag pos n : ℕ) (rest more : List ℕ) (v : TlvView)
    → len ≡ pos + length rest
    → pos + n ≤ len
    → finish_tlv (len + length more) tag pos n (rest ++ more) ≡ ok v
    → finish_tlv len tag pos n rest ≡ ok v
unfolding finish_tlv
finish_tlv-prefix len tag pos n rest more v e k h = ground (arith, take-append-le n rest more)

finish_tlv-total :
    (len tag pos n : ℕ) (rest : List ℕ) (v : TlvView)
    → finish_tlv len tag pos n rest ≡ ok v
    → v.total_len ≡ pos + n
unfolding finish_tlv
finish_tlv-total len tag pos n rest v h = ground arith

-- What lies past the end of a TLV is not needed to read it.
pub der_read_tlv-prefix :
    (bytes more : List ℕ) (v : TlvView)
    → der_read_tlv (bytes ++ more) ≡ ok v
    → v.total_len ≤ length bytes
    → der_read_tlv bytes ≡ ok v
der_read_tlv-prefix [] more v h k = absurd (omega (arith, (der_read_tlv-IsWithin more v h).header))
der_read_tlv-prefix (t ∷ []) more v h k =
    absurd (omega (arith, (der_read_tlv-IsWithin (t ∷ more) v h).header))
der_read_tlv-prefix (t ∷ b ∷ rest) more v h k =
    let n = bit_and b 0x7f in
    unfold der_read_tlv in
    ground (
      arith,
      length-append rest more,
      finish_tlv-prefix (length (t ∷ b ∷ rest)) t 2 b rest more v,
      finish_tlv-prefix (length (t ∷ b ∷ rest)) t (2 + n) (read_length 0 (take n rest))
          (drop n rest) more v,
      finish_tlv-total (length (t ∷ b ∷ rest ++ more)) t 2 b (rest ++ more) v,
      finish_tlv-total (length (t ∷ b ∷ rest ++ more)) t (2 + n)
          (read_length 0 (take n (rest ++ more))) (drop n (rest ++ more)) v,
      take-append-le n rest more,
      drop-append-le n rest more,
      length-drop n rest,
    )

-- `bytes` are one TLV and nothing more.
pub record IsField (bytes : List ℕ) (v : TlvView) : Type 0 where
  pub read : der_read_tlv bytes ≡ ok v
  pub whole : v.total_len ≡ length bytes

abbrev pub IsTlv : List ℕ → Type 0
IsTlv bytes = (v : TlvView) × IsField bytes v

-- The bytes of a TLV that was read are one TLV.
pub take-IsField :
    (bytes : List ℕ) (v : TlvView) → der_read_tlv bytes ≡ ok v → IsField (take v.total_len bytes) v
take-IsField bytes v h = record {
  read =
      der_read_tlv-prefix (take n bytes) (drop n bytes) v (rw take-append-drop h)
        (omega (arith, size));
  whole = sym size;
}
  where
    n : ℕ
    n = v.total_len

    size : length (take n bytes) ≡ n
    size = length-take n bytes (der_read_tlv-IsWithin bytes v h).fits

-- A TLV at the front of a buffer.
pub IsField-append :
    (bytes more : List ℕ) (v : TlvView) → IsField bytes v → der_read_tlv (bytes ++ more) ≡ ok v
IsField-append bytes more v f = der_read_tlv-append bytes more v f.read

pub IsField-take :
    (bytes more : List ℕ) (v : TlvView) → IsField bytes v → take v.total_len (bytes ++ more) ≡ bytes
IsField-take bytes more v f = rw f.whole (take-append bytes more)

pub IsField-drop :
    (bytes more : List ℕ) (v : TlvView) → IsField bytes v → drop v.total_len (bytes ++ more) ≡ more
IsField-drop bytes more v f = rw f.whole (drop-append bytes more)
