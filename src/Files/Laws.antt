-- ===== src/Files/Laws.antt =====
-- What actions do to a file that they are not to touch.
use aas_sign.Base.{
  ℕ, ◌≡◌, ◌≢◌, refl, sym, ap, ◌∙◌, Bool, true, false, List, some, String, Result, ok, err, stuck,
  Text, if◌then◌else◌,
}
use aas_sign.Files.{
  Files, file_at, Action, continue_with, ◌>>=◌, lift, require, Platform, IsPlatform, Outside,
  with_temp_dir,
}

-- However an action ends, the file has the content it had.
pub record Keeps {A : Type 0} (path : Text) (b : List ℕ) (m : Action A) : Type 0 where
  pub kept : (s : Files) → file_at s path ≡ some b → file_at (m s).1 path ≡ some b

-- An action that does not return leaves the file as it was.
pub record Safe {A : Type 0} (path : Text) (b : List ℕ) (m : Action A) : Type 0 where
  pub safe :
      (s : Files)
      → file_at s path ≡ some b
      → ((a : A) → (m s).0 ≢ ok a)
      → file_at (m s).1 path ≡ some b

module _ {path : Text} {b : List ℕ} where
  continue-Kept :
      {A B : Type 0} (f : A → Action B) (r : Result A) (s : Files)
      → file_at s path ≡ some b
      → ((a : A) → r ≡ ok a → Keeps path b (f a))
      → file_at (continue_with f (r, s)).1 path ≡ some b
  continue-Kept f (ok a) s h k = (k a refl).kept s h
  continue-Kept f (err why) s h k = h
  continue-Kept f stuck s h k = h

  pub >>=-Keeps :
      {A B : Type 0} (m : Action A) (f : A → Action B)
      → Keeps path b m
      → ((a : A) (s : Files) → file_at s path ≡ some b → (m s).0 ≡ ok a → Keeps path b (f a))
      → Keeps path b (m >>= f)
  >>=-Keeps m f h k = record {
    kept = λ s e. continue-Kept f (m s).0 (m s).1 (h.kept s e) (λ a. k a s e);
  }

  pub >>=-Keeps_all :
      {A B : Type 0} (m : Action A) (f : A → Action B)
      → Keeps path b m
      → ((a : A) → Keeps path b (f a))
      → Keeps path b (m >>= f)
  >>=-Keeps_all m f h k = >>=-Keeps m f h (λ a s e q. k a)

  pub lift-Keeps : {A : Type 0} (r : Result A) → Keeps path b (lift r)
  lift-Keeps r = record { kept = λ s e. e }

  pub require-Keeps : (test : Bool) (why : String) → Keeps path b (require test why)
  require-Keeps true why = lift-Keeps (ok tt)
  require-Keeps false why = lift-Keeps (err why)

  pub if-Keeps :
      {A : Type 0} (test : Bool) {m n : Action A}
      → Keeps path b m
      → Keeps path b n
      → Keeps path b (if test then m else n)
  if-Keeps true h k = h
  if-Keeps false h k = k

  continue-Safe :
      {A B : Type 0} (f : A → Action B) (r : Result A) (s : Files)
      → file_at s path ≡ some b
      → ((a : A) → r ≡ ok a → Safe path b (f a))
      → ((c : B) → (continue_with f (r, s)).0 ≢ ok c)
      → file_at (continue_with f (r, s)).1 path ≡ some b
  continue-Safe f (ok a) s h k n = (k a refl).safe s h n
  continue-Safe f (err why) s h k n = h
  continue-Safe f stuck s h k n = h

  pub >>=-Safe :
      {A B : Type 0} (m : Action A) (f : A → Action B)
      → Keeps path b m
      → ((a : A) (s : Files) → file_at s path ≡ some b → (m s).0 ≡ ok a → Safe path b (f a))
      → Safe path b (m >>= f)
  >>=-Safe m f h k = record {
    safe = λ s e n. continue-Safe f (m s).0 (m s).1 (h.kept s e) (λ a. k a s e) n;
  }

module _ {path : Text} {b : List ℕ} (p : Platform) (laws : IsPlatform p) where
  -- A directory that was new when the file was there does not hold it.
  pub new_dir-Outside :
      (parent : Text) (s : Files) (dir : Text)
      → file_at s path ≡ some b
      → (p.make_temp_dir parent s).0 ≡ ok dir
      → Outside dir path
  new_dir-Outside parent s dir h e name q =
      let k = laws.make_temp_dir_new parent s dir name e in cc (sym h ∙ ap (file_at s) q ∙ k)

  same-Keeps : {A : Type 0} (m : Action A) → ((s : Files) → (m s).1 ≡ s) → Keeps path b m
  same-Keeps m h = record { kept = λ s e. ap (λ t. file_at t path) (h s) ∙ e }

  removed :
      {A : Type 0} (dir : Text) (r : Result A × Files)
      → Outside dir path
      → file_at r.1 path ≡ some b
      → file_at (p.remove_all dir r.1) path ≡ some b
  removed dir r o h = laws.remove_all_other dir r.1 path o ∙ h

  pub with_temp_dir-Keeps :
      {A : Type 0} (parent : Text) (body : Text → Action A)
      → ((dir : Text) → Outside dir path → Keeps path b (body dir))
      → Keeps path b (with_temp_dir p parent body)
  with_temp_dir-Keeps parent body k =
      >>=-Keeps (p.make_temp_dir parent) _ (same-Keeps _ (laws.make_temp_dir_same parent))
        (λ dir s e q.
          let o = new_dir-Outside parent s dir e q in
          record { kept = λ s' e'. removed dir (body dir s') o ((k dir o).kept s' e') })

  pub with_temp_dir-Safe :
      {A : Type 0} (parent : Text) (body : Text → Action A)
      → ((dir : Text) → Outside dir path → Safe path b (body dir))
      → Safe path b (with_temp_dir p parent body)
  with_temp_dir-Safe parent body k =
      >>=-Safe (p.make_temp_dir parent) _ (same-Keeps _ (laws.make_temp_dir_same parent))
        (λ dir s e q.
          let o = new_dir-Outside parent s dir e q in
          record { safe = λ s' e' n. removed dir (body dir s') o ((k dir o).safe s' e' n) })

  pub read_file-Keeps : (q : Text) → Keeps path b (p.read_file q)
  read_file-Keeps q = same-Keeps _ (laws.read_file_same q)

  pub same_file-Keeps : (q r : Text) → Keeps path b (p.same_file q r)
  same_file-Keeps q r = same-Keeps _ (laws.same_file_same q r)

  pub write_whole_file-Keeps :
      (q : Text) (c : List ℕ) → path ≢ q → Keeps path b (p.write_whole_file q c)
  write_whole_file-Keeps q c n = record {
    kept = λ s e. laws.write_whole_file_other q c s path n ∙ e;
  }

  pub copy_file-Keeps : (from to : Text) → path ≢ to → Keeps path b (p.copy_file from to)
  copy_file-Keeps from to n = record { kept = λ s e. laws.copy_file_other from to s path n ∙ e }

  pub replace-Keeps :
      (from to : Text) → path ≢ from → path ≢ to → Keeps path b (p.atomic_replace_file from to)
  replace-Keeps from to n k = record { kept = λ s e. laws.replace_other from to s path n k ∙ e }

  pub replace-Safe : (from : Text) → Safe path b (p.atomic_replace_file from path)
  replace-Safe from = record { safe = λ s e n. laws.replace_failed from path s (n tt) ∙ e }

continue-returned :
    {A B : Type 0} (f : A → Action B) (r : Result A) (s : Files) {c : B}
    → (continue_with f (r, s)).0 ≡ ok c
    → (a : A) × (r ≡ ok a) × ((f a s).0 ≡ ok c) × (continue_with f (r, s) ≡ f a s)
continue-returned f (ok a) s h = (a, refl, h, refl)
continue-returned f (err why) s h = cc
continue-returned f stuck s h = cc

-- What a bind that returned has gone through.
pub >>=-returned :
    {A B : Type 0} (m : Action A) (f : A → Action B) (s : Files) {c : B}
    → ((m >>= f) s).0 ≡ ok c
    → (a : A) × ((m s).0 ≡ ok a) × ((f a (m s).1).0 ≡ ok c) × ((m >>= f) s ≡ f a (m s).1)
>>=-returned m f s h = continue-returned f (m s).0 (m s).1 h
