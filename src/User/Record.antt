-- ===== src/User/Record.antt =====
-- common/user.c: the record of an account in the storage file, as `user_store_load` reads it.
use multi_user_chat.Base.{
  ℕ, ◌-◌, ◌<◌, ◌≡◌, ◌≢◌, refl, sym, ap, subst, ◌∙◌, true, false, not, [], ◌∷◌, ◌++◌, Bytes, length,
  leb, ◌==◌, c_str, c_str-plain, IsCString, All, All-map, All-append, arith, append_assoc,
  length-append,
}
use multi_user_chat.User.{User, valid_username, user_record}
use multi_user_chat.User.Load.{prepend, fgets_lines, is_delimiter, starts_token, strtok}

-- No delimiter, and no NUL.
abbrev pub IsPlain : Bytes → Type 0
IsPlain s = All (λ b. (is_delimiter b ≡ false) × (b ≢ 0)) s

fgets_lines-line :
    (room : ℕ) (s rest : Bytes)
    → All (λ b. (b == 0x0a) ≡ false) s
    → length s < room
    → fgets_lines room (s ++ (0x0a ∷ rest)) ≡ (s ++ (0x0a ∷ [])) ∷ fgets_lines 511 rest
unfolding fgets_lines
fgets_lines-line room [] rest h fits = refl
fgets_lines-line room (b ∷ s) rest h fits =
    let more : leb room 1 ≡ false = ground arith in
    rw (fgets_lines, h.0, more)
      (ap (prepend b) (fgets_lines-line (room - 1) s rest h.1 (omega arith)))

strtok-next :
    (s : Bytes) (b : ℕ)
    → is_delimiter b ≡ false
    → starts_token s ≡ true
    → strtok (b ∷ s) ≡ prepend b (strtok s)
unfolding strtok
strtok-next s b e h = rw (strtok, e, h) refl

strtok-token :
    (s rest : Bytes) (d : ℕ)
    → IsPlain s
    → 0 < length s
    → is_delimiter d ≡ true
    → strtok (s ++ (d ∷ rest)) ≡ s ∷ strtok rest
unfolding strtok
strtok-token [] rest d plain some_byte h = absurd (omega arith)
strtok-token (b ∷ []) rest d plain some_byte h = simp (plain.0.0, h)
strtok-token (b ∷ c ∷ s) rest d plain some_byte h =
    strtok-next (c ∷ (s ++ (d ∷ rest))) b plain.0.0 (ap not plain.1.0.0)
    ∙ ap (prepend b) (strtok-token (c ∷ s) rest d plain.1 (omega arith) h)

-- An account as a registration makes it, with no delimiter and no NUL in its strings.
pub record IsAccount (u : User) : Type 0 where
  pub valid : valid_username u.username ≡ true
  pub name : IsPlain u.username
  pub salt : IsPlain u.salt
  pub hash : IsPlain u.password_hash
  pub salt_size : length u.salt ≡ 32
  pub hash_size : length u.password_hash ≡ 64

pub username-size : (s : Bytes) → valid_username s ≡ true → (0 < length s) × (length s < 32)
unfolding valid_username
username-size [] h = absurd (ground arith)
username-size (b ∷ s) h = (omega arith, ground arith)

-- The record without its newline.
abbrev body : User → Bytes
body u = u.username ++ (0x3a ∷ (u.salt ++ (0x3a ∷ u.password_hash)))

user_record-body : (u : User) → user_record u ≡ body u ++ (0x0a ∷ [])
user_record-body u =
    ap (λ t. u.username ++ (0x3a ∷ t))
      (sym (append_assoc u.salt (0x3a ∷ u.password_hash) (0x0a ∷ [])))
    ∙ sym (append_assoc u.username (0x3a ∷ (u.salt ++ (0x3a ∷ u.password_hash))) (0x0a ∷ []))

length-body : (u : User) → IsAccount u → length (body u) < 511
length-body u a = omega (
  arith,
  username-size u.username a.valid,
  a.salt_size,
  a.hash_size,
  length-append u.username (0x3a ∷ (u.salt ++ (0x3a ∷ u.password_hash))),
  length-append u.salt (0x3a ∷ u.password_hash),
)

one_line : (b : ℕ) → (is_delimiter b ≡ false) × (b ≢ 0) → (b == 0x0a) ≡ false
one_line b h = ground (arith, h.0)

-- What holds of the plain bytes and of the colon holds of the body.
body-All :
    (P : ℕ → Type 0) (u : User)
    → IsAccount u
    → ((b : ℕ) → (is_delimiter b ≡ false) × (b ≢ 0) → P b)
    → P 0x3a
    → All P (body u)
body-All P u a plain colon = All-append P u.username _ (All-map plain u.username a.name) (
  colon,
  All-append P u.salt _ (All-map plain u.salt a.salt) (colon, All-map plain u.password_hash a.hash),
)

pub fgets_lines-record :
    (u : User) (rest : Bytes)
    → IsAccount u
    → fgets_lines 511 (user_record u ++ rest) ≡ user_record u ∷ fgets_lines 511 rest
fgets_lines-record u rest a =
    let e = user_record-body u in
    ap (λ s. fgets_lines 511 (s ++ rest)) e
    ∙ ap (fgets_lines 511) (append_assoc (body u) (0x0a ∷ []) rest)
    ∙ fgets_lines-line 511 (body u) rest (body-All (λ b. (b == 0x0a) ≡ false) u a one_line refl)
        (length-body u a)
    ∙ ap (λ s. s ∷ fgets_lines 511 rest) (sym e)

pub strtok-record :
    (u : User)
    → IsAccount u
    → strtok (c_str (user_record u)) ≡ u.username ∷ u.salt ∷ u.password_hash ∷ []
unfolding strtok
strtok-record u a =
    let plain : IsCString (body u ++ (0x0a ∷ [])) =
      All-append (λ b. b ≢ 0) (body u) (0x0a ∷ [])
        (body-All (λ b. b ≢ 0) u a (λ b h. h.1) (omega arith)) (omega arith, tt) in
    let whole : c_str (user_record u) ≡ user_record u =
      c_str-plain (user_record u) (subst IsCString (sym (user_record-body u)) plain) in
    ap strtok whole
    ∙ strtok-token u.username _ 0x3a a.name (username-size u.username a.valid).0 refl
    ∙ ap (λ l. u.username ∷ l)
        (strtok-token u.salt _ 0x3a a.salt (omega (arith, a.salt_size)) refl
          ∙ ap (λ l. u.salt ∷ l)
              (strtok-token u.password_hash [] 0x0a a.hash (omega (arith, a.hash_size)) refl))
