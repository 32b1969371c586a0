-- ===== src/Group/Ids.antt =====
-- common/group.c: the ids "g%06u" of the groups.
use multi_user_chat.Base.{
  ℕ, zero, suc, ◌-◌, ◌^◌, ◌≤◌, ◌<◌, ◌≡◌, refl, true, false, [], ◌∷◌, Bytes, length, All-append,
  contains, take-all, length-append, length-replicate, replicate, print_padded,
  print_padded-injective, decimal, length-decimal-le, decimal-IsDigits, IsDigits, arith,
}
use multi_user_chat.Group.{valid_group_id}
use multi_user_chat.Group.Store.{group_id_text}

replicate-IsDigits : (k : ℕ) → IsDigits (replicate k 48)
replicate-IsDigits zero = tt
replicate-IsDigits (suc k) = ((omega arith, omega arith), replicate-IsDigits k)

print_padded-IsDigits : (n : ℕ) → IsDigits (print_padded n)
print_padded-IsDigits n =
    All-append _ (replicate (6 - length (decimal 10 n)) 48) (decimal 10 n)
      (replicate-IsDigits (6 - length (decimal 10 n))) (decimal-IsDigits 10 n)

length-print_padded-le : (n : ℕ) → length (print_padded n) ≤ 10
length-print_padded-le n = omega (
  arith,
  length-append (replicate (6 - length (decimal 10 n)) 48) (decimal 10 n),
  length-replicate {A = ℕ} (6 - length (decimal 10 n)) 48,
  length-decimal-le 10 n,
)

-- The id's text is not cut off by its buffer.
group_id_text_lem : (n : ℕ) → group_id_text n ≡ 0x67 ∷ print_padded n
unfolding group_id_text
group_id_text_lem n = take-all 31 _ (omega (arith, length-print_padded-le n))

contains-of-IsDigits : (c : ℕ) (s : Bytes) → c < 48 → IsDigits s → contains c s ≡ false
unfolding contains
contains-of-IsDigits c [] h d = refl
contains-of-IsDigits c (b ∷ bs) h d = ground (arith, contains-of-IsDigits c bs)

pub group_id_text-injective :
    (m n : ℕ) → m < 2 ^ 32 → n < 2 ^ 32 → group_id_text m ≡ group_id_text n → m ≡ n
group_id_text-injective m n hm hn e =
    print_padded-injective m n hm hn (cc (group_id_text_lem m, group_id_text_lem n))

pub group_id_text-valid : (n : ℕ) → valid_group_id (group_id_text n) ≡ true
unfolding valid_group_id contains
group_id_text-valid n = rw group_id_text_lem (
    ground (
      arith,
      length-print_padded-le n,
      contains-of-IsDigits 10 (print_padded n) (omega arith) (print_padded-IsDigits n),
    ))
