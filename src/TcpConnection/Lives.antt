-- ===== src/TcpConnection/Lives.antt =====
-- Sequences of init and fini: what the processor is told, and what the reactor watches.
use frame_work.Prelude.{
  ℕ, zero, suc, ◌≡◌, inl, inr, refl, sym, ap, subst, ◌∙◌, true, false, not, ◌||◌, List, [], ◌∷◌, ℤ,
  pos, negsuc, Option, none, some, ◌==◌, Bool-cases, arith,
}
use frame_work.Buffer.{null_buffer, init}
use frame_work.Buffer.Alloc.{Allocator}
use frame_work.TcpDataHandler.Lifecycle.{World}
use frame_work.TcpConnection.Lifecycle.{
  Notice, on_connected, on_disconnect, TcpConnection, added, with_buffers, unless_used, init_with,
  or_closed, connected_to, init_to, ended, fini_all,
}

-- The notices alternate, and the last is on_connected where there is a descriptor.
abbrev pub IsPaired : Option ℕ → List Notice → Type 0
IsPaired none [] = Unit
IsPaired (some fd) [] = ⊥
IsPaired none (on_disconnect ∷ ns) = IsPaired (some 0) ns
IsPaired none (on_connected ∷ ns) = ⊥
IsPaired (some fd) (on_connected ∷ ns) = IsPaired none ns
IsPaired (some fd) (on_disconnect ∷ ns) = ⊥

-- The notices pair off, and without a descriptor the reactor has the connection for none.
pub record IsLive (c : TcpConnection) : Type 0 where
  pub paired : IsPaired c.fd c.notices
  pub watched : (j : ℕ) → (c.registered j ≡ true) → c.fd ≡ some j

-- A call of the connection's owner.
pub data Event : Type 0 where
  opens : World → Option ℕ → Event
  adopts : World → Option ℕ → Event
  ends : Event

module _ (a : Allocator) where
  abbrev pub step : TcpConnection → Event → TcpConnection
  step c (opens w created) = (init_to a w c created).1
  step c (adopts w fd) = (init_with a w c fd).1
  step c ends = fini_all c

  abbrev pub run : TcpConnection → List Event → TcpConnection
  run c [] = c
  run c (e ∷ es) = run (step c e) es

abbrev pub unused : TcpConnection
unused = record {
  fd = none;
  timestamp = 0;
  rbuf = null_buffer;
  sbuf = null_buffer;
  registered = λ j. false;
  closed = [];
  notices = [];
}

any_fd : (fd fd' : ℕ) (ns : List Notice) → IsPaired (some fd) ns → IsPaired (some fd') ns
any_fd fd fd' [] h = h
any_fd fd fd' (on_connected ∷ ns) h = h
any_fd fd fd' (on_disconnect ∷ ns) h = h

-- A change of the buffers or of `closed` leaves a connection as it is.
added-IsLive :
    (w : World) (fd : ℕ) (c : TcpConnection) → c.fd ≡ none → IsLive c → IsLive (added w fd c).1
added-IsLive w fd c e v = elim (Bool-cases w.adds) [
  | inr q ↦ simp q v
  | inl q ↦ simp q (record {
    paired = subst (λ o. IsPaired o c.notices) e v.paired;
    watched = λ j. elim (Bool-cases (j == fd)) [
      | inl t ↦ let same : fd ≡ j = ground arith in rw t (λ h. ap some same)
      | inr t ↦ rw t (λ h. absurd (let o = sym e ∙ v.watched j h in cc))
    ];
  })
]

with_buffers-IsLive :
    (w : World) (fd : ℕ) (c : TcpConnection)
    → c.fd ≡ none
    → IsLive c
    → IsLive (with_buffers w fd c).1
with_buffers-IsLive w fd c e v = elim (Bool-cases (not c.rbuf.live || not c.sbuf.live)) [
  | inl q ↦ rw q v
  | inr q ↦ rw q (added-IsLive w fd c e v)
]

or_closed-IsLive : (fd : ℕ) (r : ℤ × TcpConnection) → IsLive r.1 → IsLive (or_closed fd r).1
or_closed-IsLive fd (pos zero, c) v = v
or_closed-IsLive fd (pos (suc n), c) v = record { paired = v.paired; watched = v.watched }
or_closed-IsLive fd (negsuc n, c) v = record { paired = v.paired; watched = v.watched }

module _ (a : Allocator) where
  init_with-IsLive :
      (w : World) (c : TcpConnection) (fd : Option ℕ) → IsLive c → IsLive (init_with a w c fd).1
  unfolding init_with
  init_with-IsLive w c none v = v
  init_with-IsLive w c (some fd) v = unless_used_lem c.fd refl
    where
      unless_used_lem : (o : Option ℕ) → c.fd ≡ o → IsLive (unless_used a w fd c o).1
      unless_used_lem (some old) e = v
      unless_used_lem none e =
          with_buffers-IsLive w fd
            (record c { rbuf = (init a c.rbuf (pos 1024)).1; sbuf = (init a c.sbuf (pos 1024)).1 })
            e (record { paired = v.paired; watched = v.watched })

  init_to-IsLive :
      (w : World) (c : TcpConnection) (created : Option ℕ)
      → IsLive c
      → IsLive (init_to a w c created).1
  unfolding init_to
  init_to-IsLive w c created v = connected_to_lem created c.fd
    where
      connected_to_lem : (created old : Option ℕ) → IsLive (connected_to a w created c old).1
      connected_to_lem created (some old) = v
      connected_to_lem none none = v
      connected_to_lem (some fd) none =
          or_closed-IsLive fd (init_with a w c (some fd)) (init_with-IsLive w c (some fd) v)

  fini_all-IsLive : (c : TcpConnection) → IsLive c → IsLive (fini_all c)
  unfolding fini_all
  fini_all-IsLive c v = ended_lem c.fd refl
    where
      ended_lem : (o : Option ℕ) → c.fd ≡ o → IsLive (ended c o)
      ended_lem none e = v
      ended_lem (some fd) e = record {
        paired = any_fd fd 0 c.notices (subst (λ o. IsPaired o c.notices) e v.paired);
        watched = λ j. elim (Bool-cases (j == fd)) [
          | inl t ↦ rw t (λ h. absurd (cc))
          | inr t ↦ rw t (λ h.
              absurd (let same : fd ≡ j = let o = sym e ∙ v.watched j h in cc in ground arith))
        ];
      }

  step-IsLive : (c : TcpConnection) (e : Event) → IsLive c → IsLive (step a c e)
  step-IsLive c (opens w created) v = init_to-IsLive w c created v
  step-IsLive c (adopts w fd) v = init_with-IsLive w c fd v
  step-IsLive c ends v = fini_all-IsLive c v

  run_lem : (c : TcpConnection) (es : List Event) → IsLive c → IsLive (run a c es)
  run_lem c [] v = v
  run_lem c (e ∷ es) v = run_lem (step a c e) es (step-IsLive c e v)

  -- After any calls of init, both of them, and fini on a new connection, whatever the system calls
  -- answer: on_connected and on_disconnect have been called in turn, the last of them on_connected
  -- where the connection has a descriptor, and the reactor has the connection for no other
  -- descriptor than that.
  pub run-IsLive : (es : List Event) → IsLive (run a unused es)
  run-IsLive es = run_lem unused es (record { paired = tt; watched = λ j h. absurd (cc) })
