-- ===== src/TcpDataHandler/Sound.antt =====
-- framework/tcp_data_handler.cpp: the bytes accepted for sending, and on_write.
use frame_work.Prelude.{
  ℕ, ◌≤◌, ◌≡◌, ◌≢◌, ℤ, ◌⊎◌, inl, inr, refl, ap, ◌∙◌, true, List, ◌++◌, pos, take, arith, Bool-cases,
  append_assoc, ltb, take-append-drop,
}
use frame_work.Buffer.{data_size, contents}
use frame_work.Buffer.Inv.{IsValid, pop_data-IsValid, adjust-IsValid}
use frame_work.Buffer.Bytes.{adjust-contents, pop_data-contents}
use frame_work.TcpDataHandler.Send.{
  Handler, reads_writes, Sent, took, again, broken, sent_from_buffer, write_size, unwatch, wrote,
  on_write,
}

-- The kernel takes no more bytes than it is given.
abbrev pub Takes : (ℕ → Sent) → Type 0
Takes kernel = (size n : ℕ) → kernel size ≡ took n → n ≤ size

-- Nor does it answer an error other than EAGAIN and EINTR, after which on_event is called.
abbrev pub Unbroken : (ℕ → Sent) → Type 0
Unbroken kernel = (size : ℕ) → kernel size ≢ broken

-- All that has been accepted for sending: what the kernel has, and what the buffer keeps.
abbrev pub accepted : Handler → List ℕ
accepted h = h.wire ++ contents h.sbuf

-- The pointers are in order, and the reactor watches for writes while bytes are left.
pub record IsSound (h : Handler) : Type 0 where
  pub valid : IsValid h.sbuf
  pub watched : (data_size h.sbuf ≡ 0) ⊎ (h.interest ≡ reads_writes)

pub unwatch-accepted : (h : Handler) → accepted (unwatch true h) ≡ accepted h
unwatch-accepted h = ground arith

pub unwatch-IsSound : {h : Handler} → IsSound h → IsSound (unwatch true h)
unwatch-IsSound {h} v = ground arith

pub sent_from_buffer-IsSound :
    {h : Handler} (n : ℕ)
    → IsSound h
    → n ≤ data_size h.sbuf
    → (accepted (sent_from_buffer h n) ≡ accepted h) × IsSound (sent_from_buffer h n)
sent_from_buffer-IsSound {h} n v k = elim (Bool-cases (ltb 0 n)) [
  | inr z ↦ rw z (refl, v)
  | inl p ↦
      let pop = pop_data-contents n v.valid (ground arith) k in
      let popped = pop_data-IsValid (pos n) v.valid in
      let adj = adjust-contents popped in
      rw p (
        append_assoc h.wire (take n (contents h.sbuf)) _
            ∙ ap (◌++◌ h.wire) (
                ap (◌++◌ (take n (contents h.sbuf))) (adj.0 ∙ pop.1)
                ∙ take-append-drop n (contents h.sbuf)),
        record { valid = adjust-IsValid popped; watched = ground (arith, v.watched) },
      )
]

-- on_write of a sound handler, with a kernel that takes no more than it is given and answers no
-- error, keeps the bytes
-- accepted, those the kernel has followed by those in the buffer, and leaves a sound handler.
pub on_write-IsSound :
    {h : Handler} (on_event : ℤ → Handler → Handler) (kernel : ℕ → Sent)
    → Takes kernel
    → Unbroken kernel
    → IsSound h
    → (accepted (on_write on_event true h kernel) ≡ accepted h)
      × IsSound (on_write on_event true h kernel)
unfolding on_write
on_write-IsSound {h} on_event kernel t u v = elim (Bool-cases (ltb 0 (data_size h.sbuf))) [
  | inr e ↦ rw e (unwatch-accepted h, unwatch-IsSound v)
  | inl p ↦ rw p (wrote_lem (kernel (write_size h)) (t (write_size h)) (u (write_size h)))
]
  where
    wrote_lem :
        (answer : Sent)
        → ((n : ℕ) → answer ≡ took n → n ≤ write_size h)
        → answer ≢ broken
        → (accepted (wrote on_event true h answer) ≡ accepted h)
          × IsSound (wrote on_event true h answer)
    wrote_lem (took n) k b =
        let s = sent_from_buffer-IsSound n v (ground (arith, k n refl)) in
        (unwatch-accepted (sent_from_buffer h n) ∙ s.0, unwatch-IsSound s.1)
    wrote_lem again k b = (unwatch-accepted h, unwatch-IsSound v)
    wrote_lem broken k b = absurd (b refl)
