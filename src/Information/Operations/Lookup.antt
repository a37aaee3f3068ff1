-- ===== src/Information/Operations/Lookup.antt =====
-- Loads and files by their names.
use mathlib.Core.Option
use arinc_615a_cli_tool_suit.Base.{
  All, Bool-cases, List, Option, Option-cases, [], ap, false, inl, inr, length, none, refl, some,
  some_injective, str_eq, str_eq_refl, str_eq→eq, suc, sym, take, take-append, zero, ℕ, ◌++◌, ◌∷◌,
  ◌≡◌, ◌≢◌,
}
use arinc_615a_cli_tool_suit.Information.{
  DownloadFileStatus, DownloadStatus, UploadLoadStatus, UploadStatus,
}
use arinc_615a_cli_tool_suit.Information.Operations.{
  download_file, find_by_name, find_or_add, new_file, new_load, upload_load,
}

module _ {ℓ} {A : Type ℓ} where
  abbrev pub get_elem? : List A → ℕ → Option A
  get_elem? [] n = none
  get_elem? (a ∷ items) zero = some a
  get_elem? (a ∷ items) (suc n) = get_elem? items n

some_not_none {ℓ} : {A : Type ℓ} {a : A} → some a ≢ none
some_not_none e = cc

map-suc : (o : Option ℕ) (n : ℕ) → Option.map suc o ≡ some n → (m : ℕ) × (o ≡ some m) × (n ≡ suc m)
map-suc none n e = absurd (some_not_none (sym e))
map-suc (some m) n e = (m, refl, sym (some_injective e))

map-suc-none : (o : Option ℕ) → Option.map suc o ≡ none → o ≡ none
map-suc-none none e = refl
map-suc-none (some m) e = absurd (some_not_none e)

take-length {ℓ} : {A : Type ℓ} (xs : List A) → take (length xs) xs ≡ xs
take-length [] = refl
take-length (x ∷ xs) = ap (◌∷◌ x) (take-length xs)

module _ {ℓ} {A : Type ℓ} (name_of : A → List ℕ) where
  -- The element at a position has the name, and none before it has.
  pub record IsFirst (name : List ℕ) (items : List A) (position : ℕ) : Type ℓ where
    pub element : A
    pub there : get_elem? items position ≡ some element
    pub named : name_of element ≡ name
    pub first : All (λ a. str_eq (name_of a) name ≡ false) (take position items)

  find_by_name-IsFirst :
      (name : List ℕ) (items : List A) (n : ℕ)
      → find_by_name name_of name items ≡ some n
      → IsFirst name items n
  unfolding find_by_name
  find_by_name-IsFirst name [] n e = absurd (some_not_none (sym e))
  find_by_name-IsFirst name (a ∷ items) n e = elim (Bool-cases (str_eq (name_of a) name)) [
    | inl h ↦
        let start : n ≡ 0 = sym (some_injective (rw h at e)) in
        rw start
          (record { element = a; there = refl; named = str_eq→eq (name_of a) name h; first = tt })
    | inr h ↦
        let (m, found, next) = map-suc (find_by_name name_of name items) n (rw h at e) in
        let i = find_by_name-IsFirst name items m found in
        rw next
          (record { element = i.element; there = i.there; named = i.named; first = (h, i.first) })
  ]

  find_by_name-none :
      (name : List ℕ) (items : List A)
      → find_by_name name_of name items ≡ none
      → All (λ a. str_eq (name_of a) name ≡ false) items
  unfolding find_by_name
  find_by_name-none name [] e = tt
  find_by_name-none name (a ∷ items) e = elim (Bool-cases (str_eq (name_of a) name)) [
    | inl h ↦ absurd (some_not_none (rw h at e))
    | inr h ↦ (h, find_by_name-none name items (map-suc-none _ (rw h at e)))
  ]

  find_by_name-append :
      (a : A) (items : List A)
      → find_by_name name_of (name_of a) items ≡ none
      → find_by_name name_of (name_of a) (items ++ a ∷ []) ≡ some (length items)
  unfolding find_by_name
  find_by_name-append a [] e = rw (str_eq_refl (name_of a)) refl
  find_by_name-append a (x ∷ items) e = elim (Bool-cases (str_eq (name_of x) (name_of a))) [
    | inl h ↦ absurd (some_not_none (rw h at e))
    | inr h ↦ rw (h, find_by_name-append a items (map-suc-none _ (rw h at e))) refl
  ]

  found :
      (fresh : A) (items : List A) (n : ℕ)
      → find_by_name name_of (name_of fresh) items ≡ some n
      → find_or_add name_of fresh items ≡ (items, n)
  unfolding find_or_add
  found fresh items n e = rw (find_or_add, e) refl

  added :
      (fresh : A) (items : List A)
      → find_by_name name_of (name_of fresh) items ≡ none
      → find_or_add name_of fresh items ≡ (items ++ fresh ∷ [], length items)
  unfolding find_or_add
  added fresh items e = rw (find_or_add, e) refl

  -- What a lookup of a name gives: the first element with the name, and the same again.
  pub record IsLookup (fresh : A) (items : List A) (outcome : List A × ℕ) : Type ℓ where
    pub is_first : IsFirst (name_of fresh) outcome.0 outcome.1
    pub kept : take (length items) outcome.0 ≡ items
    pub again : find_or_add name_of fresh outcome.0 ≡ outcome

  pub find_or_add-IsLookup :
      (fresh : A) (items : List A) → IsLookup fresh items (find_or_add name_of fresh items)
  find_or_add-IsLookup fresh items =
      elim (Option-cases (find_by_name name_of (name_of fresh) items)) [
        | inl e ↦
            let next = find_by_name-append fresh items e in
            rw (added fresh items e) (record {
              is_first =
                  find_by_name-IsFirst (name_of fresh) (items ++ fresh ∷ []) (length items) next;
              kept = take-append items (fresh ∷ []);
              again = found fresh (items ++ fresh ∷ []) (length items) next;
            })
        | inr (n, e) ↦ rw (found fresh items n e) (record {
          is_first = find_by_name-IsFirst (name_of fresh) items n e;
          kept = take-length items;
          again = found fresh items n e;
        })
      ]

-- Asking an upload status for the load with a header filename gives the position of the first load with
-- that name. The loads that were there stay in front, a new one is added only where none had the name,
-- and asking again gives the same position and changes nothing.
upload_load_lem :
    (header_filename : List ℕ) (s : UploadStatus)
    → let outcome = upload_load header_filename s in
      IsFirst
        (λ (l : UploadLoadStatus). l.header_filename)
        header_filename
        outcome.0.loads
        outcome.1
      × (take (length s.loads) outcome.0.loads ≡ s.loads)
      × (outcome.0.status ≡ s.status)
      × (upload_load header_filename outcome.0 ≡ outcome)
unfolding upload_load new_load
upload_load_lem header_filename s =
    let l =
      find_or_add-IsLookup (λ (l : UploadLoadStatus). l.header_filename)
        (new_load header_filename []) s.loads in
    (
      l.is_first,
      l.kept,
      refl,
      ap (λ (o : List UploadLoadStatus × ℕ). (record s { loads = o.0 }, o.1)) l.again,
    )

-- Asking a download status for the file with a name gives the position of the first file with that
-- name. The files that were there stay in front, a new one is added only where none had the name, and
-- asking again gives the same position and changes nothing.
download_file_lem :
    (filename : List ℕ) (s : DownloadStatus)
    → let outcome = download_file filename s in
      IsFirst (λ (f : DownloadFileStatus). f.filename) filename outcome.0.files outcome.1
      × (take (length s.files) outcome.0.files ≡ s.files)
      × (outcome.0.status ≡ s.status)
      × (download_file filename outcome.0 ≡ outcome)
unfolding download_file new_file
download_file_lem filename s =
    let l =
      find_or_add-IsLookup (λ (f : DownloadFileStatus). f.filename) (new_file filename) s.files in
    (
      l.is_first,
      l.kept,
      refl,
      ap (λ (o : List DownloadFileStatus × ℕ). (record s { files = o.0 }, o.1)) l.again,
    )
