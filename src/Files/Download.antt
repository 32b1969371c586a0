-- ===== src/Files/Download.antt =====
-- common/file_utils.c: which path `build_unique_download_path` chooses.
use multi_user_chat.Base.{
  ℕ, zero, suc, ◌+◌, ◌≤◌, ◌<◌, ◌≡◌, refl, sym, ap, ◌∙◌, Bool, true, false, ◌||◌, Option, none, some,
  [], ◌∷◌, ◌++◌, Bytes, length, contains, print_size, IsDigits, decimal-IsDigits, arith, subst, ◌⊎◌,
  ==_iff, ◌==◌, Bool-cases, Option-cases, inl, inr,
}
use multi_user_chat.Files.{
  split_last, base_filename, sanitize_loop, sanitize_component, split_extension, number,
  candidate_name, find_free, build_unique_download_path,
}

module _ (exists_at allocates : Bytes → Bool) (dir : Bytes) (name : ℕ → Bytes) (out_size : ℕ) where
  -- A path that the search from number `i` on may give.
  record Free (i rounds : ℕ) (path : Bytes) : Type 0 where
    pub number_of : ℕ
    pub within : number_of < i + rounds
    pub from : i ≤ number_of
    pub is_candidate : path ≡ dir ++ (0x2f ∷ name number_of)
    pub is_free : exists_at path ≡ false
    pub fits : length path < out_size
    pub earlier : (j : ℕ) → i ≤ j → j < number_of → exists_at (dir ++ (0x2f ∷ name j)) ≡ true

  find_free-suc :
      (rounds i : ℕ) (path : Bytes)
      → find_free exists_at allocates dir name out_size i (suc rounds) ≡ some path
      → (length (dir ++ (0x2f ∷ name i)) < out_size)
        × (((exists_at (dir ++ (0x2f ∷ name i)) ≡ false) × (dir ++ (0x2f ∷ name i) ≡ path))
            ⊎ ((exists_at (dir ++ (0x2f ∷ name i)) ≡ true)
                × (find_free exists_at allocates dir name out_size (i + 1) rounds ≡ some path)))
  unfolding find_free
  find_free-suc rounds i path h = ground arith

  find_free_lem :
      (rounds i : ℕ) (path : Bytes)
      → find_free exists_at allocates dir name out_size i rounds ≡ some path
      → Free i rounds path
  find_free_lem zero i path h = unfold find_free in (cc)
  find_free_lem (suc rounds) i path h =
      let (small, cases) = find_free-suc rounds i path h in
      elim cases [
        | inl (free, same) ↦ record {
          number_of = i;
          within = omega arith;
          from = omega arith;
          is_candidate = sym same;
          is_free = subst (λ p. exists_at p ≡ false) same free;
          fits = subst (λ p. length p < out_size) same small;
          earlier = λ j a b. absurd (omega (arith, a, b));
        }
        | inr (taken, later) ↦
            let r = find_free_lem rounds (i + 1) path later in
            record {
              number_of = r.number_of;
              within = omega (arith, r.within);
              from = omega (arith, r.from);
              is_candidate = r.is_candidate;
              is_free = r.is_free;
              fits = r.fits;
              earlier = λ j a b. elim (Bool-cases (i == j)) [
                | inl now ↦
                    subst (λ k. exists_at (dir ++ (0x2f ∷ name k)) ≡ true) ((==_iff i j).0 now)
                      taken
                | inr after ↦ r.earlier j (ground (arith, a, after)) b
              ];
            }
      ]

unmarked_sanitize : (cs : Bytes) (room : ℕ) → contains 0x2f (sanitize_loop cs room) ≡ false
unfolding sanitize_loop contains
unmarked_sanitize [] room = refl
unmarked_sanitize (c ∷ cs) zero = refl
unmarked_sanitize (c ∷ cs) (suc room) = ground (arith, unmarked_sanitize cs room)

length-sanitize : (cs : Bytes) (room : ℕ) → length (sanitize_loop cs room) ≤ room
unfolding sanitize_loop
length-sanitize [] room = omega arith
length-sanitize (c ∷ cs) zero = omega arith
length-sanitize (c ∷ cs) (suc room) = omega (arith, length-sanitize cs room)

contains-append : (c : ℕ) (a b : Bytes) → contains c (a ++ b) ≡ (contains c a || contains c b)
unfolding contains
contains-append c [] b = refl
contains-append c (x ∷ a) b = ground (arith, contains-append c a b)

abbrev joined : ℕ → Option (Bytes × Bytes) → Bytes
joined c none = []
joined c (some (front, back)) = front ++ (c ∷ back)

split_last-append :
    (c : ℕ) (s front back : Bytes) → split_last c s ≡ some (front, back) → s ≡ front ++ (c ∷ back)
unfolding split_last
split_last-append c [] front back h = cc
split_last-append c (x ∷ s) front back h = elim (Option-cases (split_last c s)) [
  | inl gone ↦
      let here : (x == c) ≡ true = ground (arith, h, gone) in
      ap (λ y. y ∷ s) ((==_iff x c).0 here) ∙ ap (joined c) (rw (gone, here) at h)
  | inr ((f, b), e) ↦ ap (λ r. x ∷ r) (split_last-append c s f b e) ∙ ap (joined c) (rw e at h)
]

split_last-none : (c : ℕ) (s : Bytes) → split_last c s ≡ none → contains c s ≡ false
unfolding split_last contains
split_last-none c [] h = refl
split_last-none c (x ∷ s) h = ground (arith, split_last-none c s)

-- The parts of a name without slashes have none.
split_extension-unmarked :
    (file : Bytes)
    → contains 0x2f file ≡ false
    → (contains 0x2f (split_extension file).0 ≡ false)
      × (contains 0x2f (split_extension file).1 ≡ false)
unfolding split_extension contains
split_extension-unmarked file h = elim (Option-cases (split_last 0x2e file)) [
  | inl gone ↦ rw (split_extension, gone) (h, refl)
  | inr ((stem, ext), e) ↦
      let whole =
        ap (contains 0x2f) (split_last-append 0x2e file stem ext e)
        ∙ contains-append 0x2f stem (0x2e ∷ ext) in
      let whole' : (contains 0x2f stem || contains 0x2f (0x2e ∷ ext)) ≡ false = sym whole ∙ h in
      ground (arith, e, whole')
]

digits-unmarked : (s : Bytes) → IsDigits s → contains 0x2f s ≡ false
unfolding contains
digits-unmarked [] h = refl
digits-unmarked (d ∷ s) h = ground (arith, h.0.0, digits-unmarked s h.1)

number-unmarked : (i : ℕ) → contains 0x2f (number i) ≡ false
unfolding contains
number-unmarked zero = refl
number-unmarked (suc i) = digits-unmarked (print_size (suc i)) (decimal-IsDigits 20 (suc i))

candidate_name-unmarked :
    (sender stem ext : Bytes) (i : ℕ)
    → contains 0x2f sender ≡ false
    → contains 0x2f stem ≡ false
    → contains 0x2f ext ≡ false
    → contains 0x2f (candidate_name sender stem ext i) ≡ false
unfolding candidate_name contains
candidate_name-unmarked sender stem ext i a b c =
    rw
      (
        candidate_name,
        contains-append 0x2f sender (0x5f ∷ (stem ++ (number i ++ ext))),
        contains-append 0x2f stem (number i ++ ext),
        contains-append 0x2f (number i) ext,
        a,
        b,
        number-unmarked i,
        c,
      )
      refl

-- A path that `build_unique_download_path` chooses lies directly in the directory, under a name
-- without a slash, whatever the sender and the file are called; nothing exists there, and it fits
-- into the buffer with its NUL.
pub build_unique_download_path_lem :
    (exists_at allocates : Bytes → Bool) (has_directory : Bool) (dir sender filename : Bytes)
    (out_size : ℕ) (path : Bytes)
    → build_unique_download_path exists_at allocates has_directory dir sender filename out_size
      ≡ some path
    → (name : Bytes) × (path ≡ dir ++ (0x2f ∷ name))
      × (contains 0x2f name ≡ false)
      × (exists_at path ≡ false)
      × (length path < out_size)
unfolding build_unique_download_path sanitize_component
build_unique_download_path_lem exists_at allocates has_directory dir sender filename out_size path
      h =
    let s = sanitize_component sender 128 in
    let file = sanitize_component (base_filename filename) 256 in
    let parts = split_extension file in
    let found : find_free exists_at allocates dir (candidate_name s parts.0 parts.1) out_size 0 1000
        ≡ some path =
      ground (arith, h) in
    let r =
      find_free_lem exists_at allocates dir (candidate_name s parts.0 parts.1) out_size 1000 0 path
        found in
    let (stem, ext) =
      split_extension-unmarked file (unmarked_sanitize (base_filename filename) 255) in
    (
      candidate_name s parts.0 parts.1 r.number_of,
      r.is_candidate,
      candidate_name-unmarked s parts.0 parts.1 r.number_of (unmarked_sanitize sender 127) stem ext,
      r.is_free,
      r.fits,
    )
