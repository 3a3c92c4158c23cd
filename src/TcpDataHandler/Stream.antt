-- ===== src/TcpDataHandler/Stream.antt =====
-- framework/tcp_data_handler.cpp, send(data): the bytes it puts behind those accepted before.
use frame_work.Prelude.{
  nil_of_length, ℕ, zero, suc, ◌+◌, ◌≤◌, ◌<◌, ◌≡◌, ◌≢◌, ◌⊎◌, inl, inr, refl, sym, ap, ◌∙◌, Bool,
  true, not, ◌&&◌, List, [], ◌++◌, ℤ, pos, negsuc, ok, minus_one, length, take, drop, arith,
  Bool-cases, length-drop, append_assoc, append-nil, ◌==◌, ltb, take-append-drop, take-length,
}
use frame_work.Buffer.{Buffer, capacity, data_size, space_size, contents, resize}
use frame_work.Buffer.Alloc.{Allocator, IsLawful}
use frame_work.Buffer.Inv.{
  IsValid, length-contents, store-IsValid, push_data-IsValid, resize-IsValid, resize-pointers,
  positive-ne,
}
use frame_work.Buffer.Bytes.{append-contents, resize-contents}
use frame_work.TcpDataHandler.Send.{
  Handler, Sent, took, again, broken, enqueue, direct, made_room, with_room, send_now, send,
}
use frame_work.TcpDataHandler.Sound.{Takes, accepted, IsSound}

-- What a call of send that is given these bytes leaves: on success they follow all that was
-- accepted before; on failure nothing is added.
pub record Sends (h : Handler) (bytes : List ℕ) (r : ℤ × Handler) : Type 0 where
  pub sound : IsSound r.1
  pub outcome :
      ((r.0 ≡ ok) × (accepted r.1 ≡ accepted h ++ bytes))
      ⊎ ((r.0 ≡ minus_one) × (accepted r.1 ≡ accepted h))

pub enqueue-Sends :
    {h : Handler} (rest : List ℕ)
    → IsValid h.sbuf
    → length rest ≤ space_size h.sbuf
    → Sends h rest (enqueue true h rest)
unfolding enqueue
enqueue-Sends {h} rest v k = record {
  sound = record {
    valid = push_data-IsValid (pos (length rest)) (store-IsValid rest v k);
    watched = inr refl;
  };
  outcome = inl (
    refl,
    ap (◌++◌ h.wire) (append-contents rest v k) ∙ sym (append_assoc h.wire (contents h.sbuf) rest),
  );
}

pub refused-Sends :
    {h : Handler} (h' : Handler) (bytes : List ℕ)
    → IsSound h'
    → accepted h' ≡ accepted h
    → Sends h bytes (minus_one, h')
refused-Sends h' bytes v e = record { sound = v; outcome = inr (refl, e) }

-- with_room either goes on with the room that was asked for, or refuses; the bytes stay.
pub with_room_cases :
    {a : Allocator} {h : Handler} (P : ℤ × Handler → Type 0) (size : ℕ)
    (next : Handler → ℤ × Handler)
    → IsLawful a
    → IsSound h
    → ((h' : Handler)
        → IsSound h'
        → accepted h' ≡ accepted h
        → size ≤ space_size h'.sbuf
        → P (next h'))
    → ((h' : Handler) → IsSound h' → accepted h' ≡ accepted h → P (minus_one, h'))
    → P (with_room a h size next)
unfolding with_room
with_room_cases {a} {h} P size next l v goes fails =
    elim (Bool-cases (ltb (space_size h.sbuf) size)) [
      | inr e ↦ rw e (goes h v refl (ground arith))
      | inl e ↦
          let some_size : 0 < capacity h.sbuf + size = ground arith in
          rw e (
            made_room_lem (resize a h.sbuf (pos (capacity h.sbuf + size)))
              (resize-IsValid (pos (capacity h.sbuf + size)) (positive-ne some_size) l v.valid)
              (resize-contents (capacity h.sbuf + size) some_size l v.valid)
              (resize-pointers a h.sbuf (capacity h.sbuf + size) some_size))
    ]
  where
    made_room_lem :
        (r : ℤ × Buffer)
        → IsValid r.1
        → (contents r.1 ≡ contents h.sbuf)
          × (((r.0 ≡ ok)
                × (capacity r.1 ≡ capacity h.sbuf + size)
                × (h.sbuf.wr ≤ capacity h.sbuf + size))
              ⊎ ((r.0 ≢ ok) × (r.1 ≡ h.sbuf)))
        → (r.1.rd ≡ h.sbuf.rd) × (r.1.wr ≡ h.sbuf.wr)
        → P (made_room next h r)
    made_room_lem (pos zero, b) w (c, o) (p, q) =
        goes (record h { sbuf = b })
          (record {
            valid = w;
            watched = elim v.watched [ inl z ↦ inl (omega (arith, p, q)) | inr i ↦ inr i ];
          })
          (ap (◌++◌ h.wire) c) (ground arith)
    made_room_lem (pos (suc n), b) w (c, o) (p, q) =
        fails _
          (record {
            valid = w;
            watched = elim v.watched [ inl z ↦ inl (omega (arith, p, q)) | inr i ↦ inr i ];
          })
          (ap (◌++◌ h.wire) c)
    made_room_lem (negsuc n, b) w (c, o) (p, q) =
        fails _
          (record {
            valid = w;
            watched = elim v.watched [ inl z ↦ inl (omega (arith, p, q)) | inr i ↦ inr i ];
          })
          (ap (◌++◌ h.wire) c)

pub Sends-from :
    {h h' : Handler} {bytes : List ℕ} {r : ℤ × Handler}
    → accepted h' ≡ accepted h
    → Sends h' bytes r
    → Sends h bytes r
Sends-from {bytes} e s = record {
  sound = s.sound;
  outcome = elim s.outcome [
    | inl (o, p) ↦ inl (o, p ∙ ap (λ t. t ++ bytes) e)
    | inr (o, p) ↦ inr (o, p ∙ e)
  ];
}

pub ok-ne-minus_one : ok ≢ minus_one
ok-ne-minus_one e = cc

direct-Sends :
    {h : Handler} (bytes : List ℕ) (answer : Sent)
    → IsSound h
    → data_size h.sbuf ≡ 0
    → length bytes ≤ space_size h.sbuf
    → ((n : ℕ) → answer ≡ took n → n ≤ length bytes)
    → Sends h bytes (direct true h bytes answer)
unfolding direct
direct-Sends {h} bytes broken v z k t = refused-Sends h bytes v refl
direct-Sends {h} bytes again v z k t = elim (Bool-cases (0 == length bytes)) [
  | inr e ↦ rw e (enqueue-Sends bytes v.valid k)
  | inl e ↦ rw e (record {
    sound = v;
    outcome = inl (
      refl,
      sym (
          ap (λ b. accepted h ++ b) (nil_of_length bytes (ground arith)) ∙ append-nil (accepted h)),
    );
  })
]
direct-Sends {h} bytes (took n) v z k t = elim (Bool-cases (n == length bytes)) [
  | inl e ↦ rw e (record {
    sound = record { valid = v.valid; watched = v.watched };
    outcome = inl (refl, whole (ground arith));
  })
  | inr e ↦ rw e (record { sound = rest.sound; outcome = inl (part) })
]
  where
    empty : contents h.sbuf ≡ []
    empty = nil_of_length (contents h.sbuf) (omega (arith, length-contents v.valid))

    moved : (h.wire ++ take n bytes) ++ contents h.sbuf ≡ accepted h ++ take n bytes
    moved =
        ap (λ x. (h.wire ++ take n bytes) ++ x) empty
        ∙ append-nil (h.wire ++ take n bytes)
        ∙ ap (λ x. x ++ take n bytes) (sym (ap (◌++◌ h.wire) empty ∙ append-nil h.wire))

    whole : n ≡ length bytes → (h.wire ++ take n bytes) ++ contents h.sbuf ≡ accepted h ++ bytes
    whole e = moved ∙ ap (◌++◌ (accepted h)) (take-length bytes n (omega arith))

    h' : Handler
    h' = record h { wire = h.wire ++ take n bytes }

    rest : Sends h' (drop n bytes) (enqueue true h' (drop n bytes))
    rest = enqueue-Sends (drop n bytes) v.valid (omega (arith, length-drop n bytes))

    part :
        ((enqueue true h' (drop n bytes)).0 ≡ ok)
        × (accepted (enqueue true h' (drop n bytes)).1 ≡ accepted h ++ bytes)
    part = elim rest.outcome [
      | inl (o, p) ↦ (
        o,
        p
            ∙ ap (λ x. x ++ drop n bytes) moved
            ∙ append_assoc (accepted h) _ _
            ∙ ap (◌++◌ (accepted h)) (take-append-drop n bytes),
      )
      | inr (o, p) ↦ absurd (ok-ne-minus_one o)
    ]

send_now-Sends :
    {h : Handler} (bytes : List ℕ) (delay : Bool) (kernel : ℕ → Sent)
    → Takes kernel
    → IsSound h
    → length bytes ≤ space_size h.sbuf
    → Sends h bytes (send_now true bytes delay kernel h)
unfolding send_now
send_now-Sends {h} bytes delay kernel t v k =
    elim (Bool-cases (data_size h.sbuf == 0 && not delay)) [
      | inr e ↦ rw e (enqueue-Sends bytes v.valid k)
      | inl e ↦
          rw e (direct-Sends bytes (kernel (length bytes)) v (ground arith) k (t (length bytes)))
    ]

-- send(data), with a lawful allocator, a kernel that takes no more than it is given and a sound
-- handler, leaves a sound handler, and either returns 0, with the bytes put behind all that was
-- accepted before, or returns -1 with nothing added.
pub send-Sends :
    {a : Allocator} {h : Handler} (bytes : List ℕ) (delay : Bool) (kernel : ℕ → Sent)
    → IsLawful a
    → Takes kernel
    → IsSound h
    → Sends h bytes (send a true h bytes delay kernel)
unfolding send
send-Sends {a} {h} bytes delay kernel l t v = elim (Bool-cases h.connected) [
  | inr e ↦ simp e (refused-Sends h bytes v refl)
  | inl e ↦ simp e (
      with_room_cases (Sends h bytes) (length bytes) (send_now true bytes delay kernel) l v
        (λ h' v' e' k. Sends-from e' (send_now-Sends bytes delay kernel t v' k))
        (λ h' v' e'. refused-Sends h' bytes v' e'))
]
