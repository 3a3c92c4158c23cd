-- ===== src/TcpDataHandler/Actions.antt =====
-- framework/tcp_data_handler.cpp: sequences of sends and write events.
use frame_work.Prelude.{
  ℕ, zero, suc, ◌≡◌, inl, inr, sym, ap, ◌∙◌, Bool, true, List, [], ◌∷◌, ◌++◌, ℤ, pos, negsuc, arith,
  append_assoc, append-nil,
}
use frame_work.Buffer.Alloc.{Allocator, IsLawful}
use frame_work.TcpDataHandler.Send.{Handler, Sent, on_write, send}
use frame_work.TcpDataHandler.Sound.{Takes, Unbroken, accepted, IsSound, on_write-IsSound}
use frame_work.TcpDataHandler.Stream.{Sends, ok-ne-minus_one, send-Sends}

-- Calls of send and write events, in the order in which they come.
pub data Action : Type 0 where
  sends : List ℕ → Bool → (ℕ → Sent) → Action
  writable : (ℕ → Sent) → Action

-- An error of a send is its answer, and one of a write event a call of on_event.
abbrev pub Works : Action → Type 0
Works (sends bytes delay kernel) = Takes kernel
Works (writable kernel) = Takes kernel × Unbroken kernel

abbrev pub AllWork : List Action → Type 0
AllWork [] = Unit {0}
AllWork (x ∷ xs) = Works x × AllWork xs

abbrev taken_bytes : ℤ → List ℕ → List ℕ
taken_bytes (pos zero) bytes = bytes
taken_bytes (_) bytes = []

-- The handler after the actions, and the bytes of the calls of send that returned 0, in order.
pub run : (ℤ → Handler → Handler) → Allocator → Handler → List Action → Handler × List ℕ
run on_event a h [] = (h, [])
run on_event a h (sends bytes delay kernel ∷ xs) =
    let (s, h') = send a true h bytes delay kernel in
    let (h'', sent) = run on_event a h' xs in (h'', taken_bytes s bytes ++ sent)
run on_event a h (writable kernel ∷ xs) = run on_event a (on_write on_event true h kernel) xs

Sends-taken :
    {h : Handler} (bytes : List ℕ) (r : ℤ × Handler)
    → Sends h bytes r
    → accepted r.1 ≡ accepted h ++ taken_bytes r.0 bytes
Sends-taken {h} bytes (pos zero, h') s = elim s.outcome [
  | inl (o, p) ↦ p
  | inr (o, p) ↦ absurd (ok-ne-minus_one o)
]
Sends-taken {h} bytes (pos (suc n), h') s = elim s.outcome [
  | inl (o, p) ↦ absurd (ground (arith, o))
  | inr (o, p) ↦ p ∙ sym (append-nil (accepted h))
]
Sends-taken {h} bytes (negsuc n, h') s = elim s.outcome [
  | inl (o, p) ↦ absurd (ground (arith, o))
  | inr (o, p) ↦ p ∙ sym (append-nil (accepted h))
]

-- Over any sequence of sends and write events with a lawful allocator, a kernel that takes no more
-- than it is given, write events that meet no error, so that on_event is not called, and an
-- epoll_ctl that succeeds, what the kernel has taken followed by what the buffer keeps is what was
-- accepted at the start followed by the bytes of the sends that returned 0, in order; the buffer
-- stays valid, and the reactor watches for writes while bytes are left.
pub run-accepted :
    {a : Allocator} (on_event : ℤ → Handler → Handler) (xs : List Action) (h : Handler)
    → IsLawful a
    → AllWork xs
    → IsSound h
    → let (h', sent) = run on_event a h xs in (accepted h' ≡ accepted h ++ sent) × IsSound h'
unfolding run
run-accepted on_event [] h l t v = (sym (append-nil (accepted h)), v)
run-accepted {a} on_event (sends bytes delay kernel ∷ xs) h l (t, ts) v =
    let s = send-Sends bytes delay kernel l t v in
    let r = run-accepted on_event xs (send a true h bytes delay kernel).1 l ts s.sound in
    (
      r.0
          ∙ ap (λ b. b ++ (run on_event a (send a true h bytes delay kernel).1 xs).1)
              (Sends-taken bytes _ s)
          ∙ append_assoc (accepted h) _ _,
      r.1,
    )
run-accepted {a} on_event (writable kernel ∷ xs) h l ((t, u), ts) v =
    let w = on_write-IsSound on_event kernel t u v in
    let r = run-accepted on_event xs (on_write on_event true h kernel) l ts w.1 in
    (r.0 ∙ ap (λ b. b ++ (run on_event a (on_write on_event true h kernel) xs).1) w.0, r.1)
