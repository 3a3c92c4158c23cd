-- ===== src/TcpConnection/Sending.antt =====
-- The bytes that a connection accepts for sending.
use frame_work.Prelude.{
  ℕ, ◌≤◌, ◌≡◌, ◌≢◌, ◌⊎◌, inl, inr, refl, sym, ap, ◌∙◌, Bool, true, false, not, ◌&&◌, List, [], ◌++◌,
  ℤ, ok, minus_one, ltb, ◌==◌, length, take, drop, nil_of_length, append-nil, append_assoc,
  take-append-drop, take-length, Bool-cases, arith,
}
use frame_work.Buffer.{data_size, contents}
use frame_work.Buffer.Alloc.{Allocator, IsLawful}
use frame_work.Buffer.Inv.{length-contents}
use frame_work.TcpDataHandler.Send.{Sent, took, again, broken, Handler, sent_from_buffer}
use frame_work.TcpDataHandler.Sound.{
  Takes, Unbroken, accepted, IsSound, unwatch-accepted, unwatch-IsSound, sent_from_buffer-IsSound,
}
use frame_work.TcpDataHandler.Stream.{
  Sends, enqueue-Sends, refused-Sends, with_room_cases, Sends-from,
}
use frame_work.TcpConnection.{wrote, on_write, finished, send_rest, direct, send}

connection_write-IsSound :
    {h : Handler} (on_event : ℤ → Handler → Handler) (kernel : ℕ → Sent)
    → Takes kernel
    → Unbroken kernel
    → IsSound h
    → (accepted (on_write on_event true h kernel) ≡ accepted h)
      × IsSound (on_write on_event true h kernel)
unfolding on_write
connection_write-IsSound {h} on_event kernel t u v = elim (Bool-cases (ltb 0 (data_size h.sbuf))) [
  | inr e ↦ rw e (unwatch-accepted h, unwatch-IsSound v)
  | inl p ↦
      rw p (wrote_lem (kernel (data_size h.sbuf)) (t (data_size h.sbuf)) (u (data_size h.sbuf)))
]
  where
    wrote_lem :
        (answer : Sent)
        → ((n : ℕ) → answer ≡ took n → n ≤ data_size h.sbuf)
        → answer ≢ broken
        → (accepted (wrote on_event true h answer) ≡ accepted h)
          × IsSound (wrote on_event true h answer)
    wrote_lem (took n) k b =
        let s = sent_from_buffer-IsSound n v (k n refl) in
        (unwatch-accepted (sent_from_buffer h n) ∙ s.0, unwatch-IsSound s.1)
    wrote_lem again k b = (unwatch-accepted h, unwatch-IsSound v)
    wrote_lem broken k b = absurd (b refl)

finished-Sends :
    {h : Handler} (bytes : List ℕ) (on_event : ℤ → Handler → Handler) (delay : Bool)
    (kernel : ℕ → Sent) (r : ℤ × Handler)
    → Takes kernel
    → Unbroken kernel
    → Sends h bytes r
    → Sends h bytes (finished on_event true delay kernel r)
finished-Sends bytes on_event true kernel r t u s = s
finished-Sends bytes on_event false kernel (status, h') t u s =
    let w = connection_write-IsSound on_event kernel t u s.sound in
    record {
      sound = w.1;
      outcome = elim s.outcome [ inl (o, p) ↦ inl (o, w.0 ∙ p) | inr (o, p) ↦ inr (o, w.0 ∙ p) ];
    }

rest-Sends :
    {a : Allocator} {h : Handler} (on_event : ℤ → Handler → Handler) (rest : List ℕ) (delay : Bool)
    (kernel : ℕ → Sent)
    → IsLawful a
    → Takes kernel
    → Unbroken kernel
    → IsSound h
    → Sends h rest (send_rest on_event a true delay kernel h rest)
unfolding send_rest
rest-Sends {h = h} on_event rest delay kernel l t u v =
    with_room_cases (Sends h rest) (length rest) _ l v
      (λ h' v' e k.
        Sends-from {h' = h'} e
          (finished-Sends rest on_event delay kernel _ t u (enqueue-Sends rest v'.valid k)))
      (λ h' v' e. refused-Sends h' rest v' e)

-- What a call of send leaves: all bytes behind those accepted before, and 0; or a front of them,
-- and -1.
pub record SendsFront (h : Handler) (bytes : List ℕ) (r : ℤ × Handler) : Type 0 where
  pub sound : IsSound r.1
  pub outcome :
      ((r.0 ≡ ok) × (accepted r.1 ≡ accepted h ++ bytes))
      ⊎ ((r.0 ≡ minus_one) × ((n : ℕ) × (accepted r.1 ≡ accepted h ++ take n bytes)))

Sends-SendsFront :
    {h : Handler} {bytes : List ℕ} {r : ℤ × Handler} → Sends h bytes r → SendsFront h bytes r
Sends-SendsFront {h} s = record {
  sound = s.sound;
  outcome = elim s.outcome [
    | inl o ↦ inl o
    | inr (o, p) ↦ inr (o, (0, p ∙ sym (append-nil (accepted h))))
  ];
}

-- The direct write, with an empty buffer.
module _ {a : Allocator} {h : Handler} (on_event : ℤ → Handler → Handler) (bytes : List ℕ)
    (kernel : ℕ → Sent) (l : IsLawful a) (t : Takes kernel) (u : Unbroken kernel) (v : IsSound h)
    (z : data_size h.sbuf ≡ 0) where
  moved : (n : ℕ) → (h.wire ++ take n bytes) ++ contents h.sbuf ≡ accepted h ++ take n bytes
  moved n =
      let empty : contents h.sbuf ≡ [] =
        nil_of_length (contents h.sbuf) (omega (arith, length-contents v.valid, z)) in
      ap (λ x. (h.wire ++ take n bytes) ++ x) empty
      ∙ append-nil (h.wire ++ take n bytes)
      ∙ ap (λ x. x ++ take n bytes) (sym (ap (◌++◌ h.wire) empty ∙ append-nil h.wire))

  -- The rest of the bytes, once the kernel has a front of them.
  after_front :
      (n : ℕ) (r : ℤ × Handler)
      → Sends (record h { wire = h.wire ++ take n bytes }) (drop n bytes) r
      → SendsFront h bytes r
  after_front n r s = record {
    sound = s.sound;
    outcome = elim s.outcome [
      | inr (o, p) ↦ inr (o, (n, p ∙ moved n))
      | inl (o, p) ↦ inl (
        o,
        p
            ∙ ap (λ x. x ++ drop n bytes) (moved n)
            ∙ append_assoc (accepted h) (take n bytes) (drop n bytes)
            ∙ ap (◌++◌ (accepted h)) (take-append-drop n bytes),
      )
    ];
  }

  nothing : 0 ≡ length bytes → accepted h ≡ accepted h ++ bytes
  nothing e = sym (ap (◌++◌ (accepted h)) (nil_of_length bytes (sym e)) ∙ append-nil (accepted h))

  direct-SendsFront :
      (answer : Sent)
      → ((n : ℕ) → answer ≡ took n → n ≤ length bytes)
      → SendsFront h bytes (direct on_event a true kernel h bytes answer)
  direct-SendsFront broken k = Sends-SendsFront (refused-Sends h bytes v refl)
  direct-SendsFront again k = elim (Bool-cases (0 == length bytes)) [
    | inr e ↦ rw e (Sends-SendsFront (rest-Sends on_event bytes false kernel l t u v))
    | inl e ↦ rw e (record { sound = v; outcome = inl (refl, nothing (ground arith)) })
  ]
  direct-SendsFront (took n) k =
      let sound : IsSound (record h { wire = h.wire ++ take n bytes }) = record {
        valid = v.valid;
        watched = v.watched;
      } in
      elim (Bool-cases (n == length bytes)) [
        | inr e ↦
            rw e (after_front n _ (rest-Sends on_event (drop n bytes) false kernel l t u sound))
        | inl e ↦
            let same : n ≡ length bytes = ground arith in
            rw e (record {
              sound = sound;
              outcome =
                  inl (refl, moved n ∙ ap (◌++◌ (accepted h)) (take-length bytes n (omega arith)));
            })
      ]

-- send(data) of a connection, with a lawful allocator, a kernel that takes no more than it is
-- given, no error in the write of on_write, an epoll_ctl that succeeds and a sound writing half,
-- leaves it sound, and either returns 0, with the bytes put behind all that was accepted before,
-- or returns -1, with some front of the bytes put there.
pub connection_send-SendsFront :
    {a : Allocator} {h : Handler} (on_event : ℤ → Handler → Handler) (bytes : List ℕ) (delay : Bool)
    (first kernel : ℕ → Sent)
    → IsLawful a
    → Takes first
    → Takes kernel
    → Unbroken kernel
    → IsSound h
    → SendsFront h bytes (send on_event a true h bytes delay first kernel)
unfolding send
connection_send-SendsFront {a} {h} on_event bytes delay first kernel l f t u v =
    elim (Bool-cases (data_size h.sbuf == 0 && not delay)) [
      | inr e ↦ rw e (Sends-SendsFront (rest-Sends on_event bytes delay kernel l t u v))
      | inl e ↦
          let z : data_size h.sbuf ≡ 0 = ground arith in
          rw e (
            direct-SendsFront on_event bytes kernel l t u v z (first (length bytes))
              (f (length bytes)))
    ]
