-- ===== src/Net/Stream.antt =====
-- common/net_utils.c: what the loops transfer, whatever the system calls return.
use multi_user_chat.Base.{
  ℕ, zero, suc, ◌+◌, ◌-◌, ◌≤◌, ◌≡◌, refl, ap, ◌∙◌, List, [], ◌∷◌, ◌++◌, Bytes, length, take, drop,
  min, All, arith, append_assoc, length-append, length-take, take-append-drop, length-drop,
}
use multi_user_chat.Net.{Outcome, count, eintr, failed, done, send_all, recv_all}

-- What is left of the bytes when the loop stops.
unfoldable pub unsent : List Outcome → Bytes → Bytes
unsent [] bs = bs
unsent (o ∷ os) [] = []
unsent (eintr ∷ os) (b ∷ bs) = unsent os (b ∷ bs)
unsent (failed ∷ os) (b ∷ bs) = b ∷ bs
unsent (count zero ∷ os) (b ∷ bs) = b ∷ bs
unsent (count (suc n) ∷ os) (b ∷ bs) = unsent os (drop n bs)

-- Whatever `send` returns, what `send_all` has written is a beginning of the bytes.
pub send_all-prefix :
    (os : List Outcome) (bs : Bytes) → (send_all os bs).written ++ unsent os bs ≡ bs
unfolding send_all unsent
send_all-prefix [] [] = refl
send_all-prefix [] (b ∷ bs) = refl
send_all-prefix (o ∷ os) [] = refl
send_all-prefix (eintr ∷ os) (b ∷ bs) = send_all-prefix os (b ∷ bs)
send_all-prefix (failed ∷ os) (b ∷ bs) = refl
send_all-prefix (count zero ∷ os) (b ∷ bs) = refl
send_all-prefix (count (suc n) ∷ os) (b ∷ bs) =
    ap (λ r. b ∷ r)
      (append_assoc (take n bs) (send_all os (drop n bs)).written (unsent os (drop n bs))
        ∙ ap (λ r. take n bs ++ r) (send_all-prefix os (drop n bs))
        ∙ take-append-drop n bs)

-- A success of `send_all` has written all bytes, in order.
pub send_all-done :
    (os : List Outcome) (bs : Bytes)
    → (send_all os bs).status ≡ done
    → (send_all os bs).written ≡ bs
unfolding send_all
send_all-done [] [] h = refl
send_all-done [] (b ∷ bs) h = cc
send_all-done (o ∷ os) [] h = refl
send_all-done (eintr ∷ os) (b ∷ bs) h = send_all-done os (b ∷ bs) h
send_all-done (failed ∷ os) (b ∷ bs) h = cc
send_all-done (count zero ∷ os) (b ∷ bs) h = cc
send_all-done (count (suc n) ∷ os) (b ∷ bs) h =
    ap (λ r. b ∷ r)
      (ap (λ r. take n bs ++ r) (send_all-done os (drop n bs) h) ∙ take-append-drop n bs)

-- A call that is interrupted or makes progress.
abbrev pub Works : Outcome → Type 0
Works eintr = Unit
Works failed = ⊥
Works (count zero) = ⊥
Works (count (suc n)) = Unit

-- How many of the calls make progress.
abbrev pub calls : List Outcome → ℕ
calls [] = 0
calls (count n ∷ os) = suc (calls os)
calls (_ ∷ os) = calls os

-- `send_all` ends with success where no call fails and one call for each byte makes progress, and
-- uses no more of those calls than there are bytes.
pub send_all_total :
    (os : List Outcome) (bs : Bytes)
    → All Works os
    → length bs ≤ calls os
    → let r = send_all os bs in
      (r.status ≡ done) × All Works r.later × (calls os ≤ calls r.later + length bs)
unfolding send_all
send_all_total [] [] w h = (refl, tt, omega arith)
send_all_total [] (b ∷ bs) w h = absurd (omega arith)
send_all_total (o ∷ os) [] w h = (refl, w, omega arith)
send_all_total (eintr ∷ os) (b ∷ bs) w h = send_all_total os (b ∷ bs) w.1 h
send_all_total (failed ∷ os) (b ∷ bs) w h = absurd w.0
send_all_total (count zero ∷ os) (b ∷ bs) w h = absurd w.0
send_all_total (count (suc n) ∷ os) (b ∷ bs) w h =
    let (ends, later, used) = send_all_total os (drop n bs) w.1 (omega (arith, length-drop n bs)) in
    (ends, later, omega (arith, used, length-drop n bs))

-- Whatever `recv` returns, `recv_all` takes bytes from the front of the stream.
pub recv_all-prefix :
    (os : List Outcome) (stream : Bytes) (len : ℕ)
    → (recv_all os stream len).got ++ (recv_all os stream len).stream ≡ stream
unfolding recv_all
recv_all-prefix os stream zero = refl
recv_all-prefix [] stream (suc len) = refl
recv_all-prefix (eintr ∷ os) stream (suc len) = recv_all-prefix os stream (suc len)
recv_all-prefix (failed ∷ os) stream (suc len) = refl
recv_all-prefix (count zero ∷ os) stream (suc len) = refl
recv_all-prefix (count (suc n) ∷ os) [] (suc len) = refl
recv_all-prefix (count (suc n) ∷ os) (b ∷ stream) (suc len) =
    let k = min n len in
    let chunk = take k stream in
    let rest = recv_all os (drop k stream) (len - length chunk) in
    ap (λ r. b ∷ r)
      (append_assoc chunk rest.got rest.stream
        ∙ ap (λ r. chunk ++ r) (recv_all-prefix os (drop k stream) (len - length chunk))
        ∙ take-append-drop k stream)

-- On success `recv_all` has just as many bytes as were asked for.
pub length-recv_all :
    (os : List Outcome) (stream : Bytes) (len : ℕ)
    → (recv_all os stream len).status ≡ done
    → length (recv_all os stream len).got ≡ len
unfolding recv_all
length-recv_all os stream zero h = refl
length-recv_all [] stream (suc len) h = cc
length-recv_all (eintr ∷ os) stream (suc len) h = length-recv_all os stream (suc len) h
length-recv_all (failed ∷ os) stream (suc len) h = cc
length-recv_all (count zero ∷ os) stream (suc len) h = cc
length-recv_all (count (suc n) ∷ os) [] (suc len) h = cc
length-recv_all (count (suc n) ∷ os) (b ∷ stream) (suc len) h =
    let k = min n len in
    let chunk = take k stream in
    let rest = recv_all os (drop k stream) (len - length chunk) in
    omega (
      arith,
      length-append chunk rest.got,
      length-take k stream,
      length-recv_all os (drop k stream) (len - length chunk) h,
    )

-- `recv_all` ends with success where no call fails, one call for each byte makes progress and the
-- stream holds enough bytes, and uses no more of those calls than it reads bytes.
pub recv_all_total :
    (os : List Outcome) (stream : Bytes) (len : ℕ)
    → All Works os
    → len ≤ calls os
    → len ≤ length stream
    → let r = recv_all os stream len in
      (r.status ≡ done) × All Works r.later × (calls os ≤ calls r.later + len)
unfolding recv_all
recv_all_total os stream zero w h l = (refl, w, omega arith)
recv_all_total [] stream (suc len) w h l = absurd (omega arith)
recv_all_total (eintr ∷ os) stream (suc len) w h l = recv_all_total os stream (suc len) w.1 h l
recv_all_total (failed ∷ os) stream (suc len) w h l = absurd w.0
recv_all_total (count zero ∷ os) stream (suc len) w h l = absurd w.0
recv_all_total (count (suc n) ∷ os) [] (suc len) w h l = absurd (omega arith)
recv_all_total (count (suc n) ∷ os) (b ∷ stream) (suc len) w h l =
    let k = min n len in
    let (ends, later, used) =
      recv_all_total os (drop k stream) (len - length (take k stream)) w.1
        (omega (arith, length-take k stream))
        (omega (arith, length-take k stream, length-drop k stream)) in
    (ends, later, omega (arith, used, length-take k stream))
