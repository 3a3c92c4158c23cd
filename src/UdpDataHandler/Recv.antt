-- ===== src/UdpDataHandler/Recv.antt =====
-- on_read of a datagram handler: one datagram into the buffer, and the packet loop.
use frame_work.Prelude.{Bool, true, false, ℕ, ◌≡◌, List, [], ◌∷◌}
use frame_work.Buffer.{Buffer, space_size}
use frame_work.Buffer.Alloc.{Allocator, IsLawful}
use frame_work.TcpDataHandler.{error_type_system}
use frame_work.TcpDataHandler.Recv.{
  Callbacks, waits, fails, Received, got, again, broken, After, take_in,
}
use frame_work.TcpDataHandler.Frames.{IsReady, Refines}
use frame_work.TcpDataHandler.Reads.{Fits, framed, take_in-Refines}

module _ {ℓ} {S : Type ℓ} (a : Allocator) (c : Callbacks S) where
  -- What read answers. An empty datagram goes by the errno that an earlier call has left: `stale`
  -- says that it is EAGAIN or EINTR.
  abbrev pub with_datagram : Bool → Buffer → S → Received → After a c
  with_datagram stale b s (got (x ∷ xs)) = take_in a c b s (x ∷ xs)
  with_datagram true b s (got []) = (waits, b, s)
  with_datagram false b s (got []) = (fails error_type_system, b, s)
  with_datagram stale b s again = (waits, b, s)
  with_datagram stale b s broken = (fails error_type_system, b, s)

  unfoldable pub on_read : Bool → Buffer → S → (ℕ → Received) → After a c
  on_read stale b s read = with_datagram stale b s (read (space_size b))

-- on_read of a datagram handler with a lawful allocator and a ready buffer, where read hands over
-- at least one byte and never more than the space: it leaves the bytes and the state that one pass
-- over the bytes in the buffer followed by the new ones leaves, stops as that pass does unless the
-- allocator fails, leaves a ready buffer, and, where it waits, leaves free space.
pub on_read-Refines {ℓ} :
    {S : Type ℓ} (a : Allocator) (c : Callbacks S) (stale : Bool) (b : Buffer) (s : S) (x : ℕ)
    (xs : List ℕ) (read : ℕ → Received)
    → IsLawful a
    → IsReady b
    → Fits read
    → read (space_size b) ≡ got (x ∷ xs)
    → Refines a (on_read a c stale b s read) (framed a c b s (x ∷ xs))
unfolding on_read
on_read-Refines a c stale b s x xs read l r f e =
    rw e (take_in-Refines a c l b s x xs r (f (space_size b) (x ∷ xs) e))
