-- ===== src/Server/Ends.antt =====
-- server/server.c: programs that end, where no other thread runs.
use multi_user_chat.Base.{ℕ, ◌≤◌, ◌≡◌, refl, ap, ◌∙◌, Option, none, some, arith}
use multi_user_chat.User.Index.{IsIndexed}
use multi_user_chat.User.Online.{online, user_store_logout_fd-online}
use multi_user_chat.User.Descriptor.{user_store_logout_fd-IsIndexed}
use multi_user_chat.Server.Closed.{Closed, Plain}
use multi_user_chat.Server.Program.{
  ServerState, Call, World, perform, register, login, online_list, get_fd, username_by_fd,
  logout_fd, snapshot_online_fds, create, get_snapshot, build_list_payload, remove_member, send,
  Program, ret, call, out_of_fuel, ◌>>=◌, step, run,
}

-- What follows a run that ended.
abbrev pub run_on :
    {A B : Type 0} → World → (A → Program B) → Option (A × ServerState) → Option (B × ServerState)
run_on world f none = none
run_on world f (some (a, s)) = run world (f a) s

pub run->>= :
    {A B : Type 0} (world : World) (m : Program A) (f : A → Program B) (s : ServerState)
    → run world (m >>= f) s ≡ run_on world f (run world m s)
unfolding run ◌>>=◌
run->>= world (ret b) f s = refl
run->>= world (call c k) f s = run->>= world (k (perform world c s).0) f (perform world c s).1
run->>= world out_of_fuel f s = refl

-- The calls that bring nobody online.
abbrev pub Quiet : Call → Type 0
Quiet (register u p) = ⊥
Quiet (login u p fd) = ⊥
Quiet _ = Unit

pub Quiet-of-Plain : (c : Call) → Plain c → Quiet c
Quiet-of-Plain (register u p) h = absurd h
Quiet-of-Plain (login u p fd) h = absurd h
Quiet-of-Plain (send fd p) h = absurd h
Quiet-of-Plain (online_list n) h = tt
Quiet-of-Plain (get_fd u) h = tt
Quiet-of-Plain (username_by_fd fd n) h = tt
Quiet-of-Plain (logout_fd fd) h = tt
Quiet-of-Plain (snapshot_online_fds fd n) h = tt
Quiet-of-Plain (create creator name members) h = tt
Quiet-of-Plain (get_snapshot id) h = tt
Quiet-of-Plain (build_list_payload u) h = tt
Quiet-of-Plain (remove_member u n) h = tt

module _ (world : World) where
  -- The program ends; the index is kept, and nobody comes online.
  pub record Ends {A : Type 0} (p : Program A) (s : ServerState) : Type 0 where
    pub result : A
    pub end : ServerState
    pub runs : run world p s ≡ some (result, end)
    pub indexed : IsIndexed end.users
    pub fewer : online end.users ≤ online s.users

  pub Ends-ret : {A : Type 0} (a : A) (s : ServerState) → IsIndexed s.users → Ends (ret a) s
  unfolding run
  Ends-ret a s v = record { result = a; end = s; runs = refl; indexed = v; fewer = omega arith }

  pub Ends->>= :
      {A B : Type 0} (m : Program A) (f : A → Program B) (s : ServerState)
      → Ends m s
      → ((a : A) (s' : ServerState)
          → IsIndexed s'.users
          → online s'.users ≤ online s.users
          → Ends (f a) s')
      → Ends (m >>= f) s
  Ends->>= m f s e next =
      let r = next e.result e.end e.indexed e.fewer in
      record {
        result = r.result;
        end = r.end;
        runs = run->>= world m f s ∙ ap (run_on world f) e.runs ∙ r.runs;
        indexed = r.indexed;
        fewer = omega (arith, r.fewer, e.fewer);
      }

  pub perform-Quiet :
      (c : Call) (s : ServerState)
      → Quiet c
      → IsIndexed s.users
      → IsIndexed (perform world c s).1.users
        × (online (perform world c s).1.users ≤ online s.users)
  unfolding perform
  perform-Quiet (register u p) s q v = absurd q
  perform-Quiet (login u p fd) s q v = absurd q
  perform-Quiet (online_list n) s q v = (v, omega arith)
  perform-Quiet (get_fd u) s q v = (v, omega arith)
  perform-Quiet (username_by_fd fd n) s q v = (v, omega arith)
  perform-Quiet (logout_fd fd) s q v =
      (user_store_logout_fd-IsIndexed s.users fd v, (user_store_logout_fd-online s.users fd v).0)
  perform-Quiet (snapshot_online_fds fd n) s q v = (v, omega arith)
  perform-Quiet (create creator name members) s q v = (v, omega arith)
  perform-Quiet (get_snapshot id) s q v = (v, omega arith)
  perform-Quiet (build_list_payload u) s q v = (v, omega arith)
  perform-Quiet (remove_member u n) s q v = (v, omega arith)
  perform-Quiet (send fd p) s q v = (v, omega arith)

  pub Ends-step : (c : Call) (s : ServerState) → Quiet c → IsIndexed s.users → Ends (step c) s
  unfolding run
  Ends-step c s q v =
      let (v', fewer) = perform-Quiet c s q v in
      record {
        result = (perform world c s).0;
        end = (perform world c s).1;
        runs = refl;
        indexed = v';
        fewer = fewer;
      }

  pub bind_below :
      (most : ℕ) {A B : Type 0} (m : Program A) (f : A → Program B)
      → ((s : ServerState) → IsIndexed s.users → online s.users ≤ most → Ends m s)
      → ((a : A) (s : ServerState) → IsIndexed s.users → online s.users ≤ most → Ends (f a) s)
      → (s : ServerState) → IsIndexed s.users
      → online s.users ≤ most
      → Ends (m >>= f) s
  bind_below most m f e next s v few =
      Ends->>= m f s (e s v few) (λ a s' v' fewer. next a s' v' (omega (arith, fewer, few)))

  -- To end on every state with at most so many users online.
  abbrev pub ends_below : ℕ → Closed
  ends_below most = record {
    Holds = λ A p. (s : ServerState) → IsIndexed s.users → online s.users ≤ most → Ends p s;
    Allowed = Quiet;
    Sendable = λ p. Unit;
    on_ret = λ A a s v few. Ends-ret a s v;
    on_bind = λ A B m f e next s v few. bind_below most m f e next s v few;
    on_call = λ c q s v few. Ends-step c s q v;
    on_send = λ fd p h s v few. Ends-step (send fd p) s tt v;
    made = λ p v. tt;
  }
