-- ===== src/Rpc/Notifications/Polled.antt =====
-- `RpcStream` of src/types/stream.rs, polled again and again.
use surrealdb_c.Prelude.{
  ℕ, zero, suc, ◌+◌, ◌≡◌, refl, arith, sym, ap, ap₂, ◌∙◌, Option, none, some, List, [], ◌∷◌, ◌++◌,
  map, Text, length,
}
use surrealdb_c.Prelude.Int.{as_c_int}
use surrealdb_c.Sdb.{SdbTypes, SdbValue}
use surrealdb_c.Client.Engine.{Ended, replied}
use surrealdb_c.Client.Guard.{OutPtr, valid, Exit, returned, sr_closed}
use surrealdb_c.Rpc.Cbor.{Cbor}
use surrealdb_c.Rpc.Notifications.{SdbAction, SdbNotification, rpc_stream_next}
use surrealdb_c.Rpc.Notifications.Shape.{cbor_of, rpc_stream_next-cbor_of}

-- `struct RpcStream`, with the receiver of the channel
pub record RpcStream (Rx : Type 0) : Type 0 where
  pub rx : Rx

-- `RpcStream::new`
unfoldable pub rpc_stream_new : {Rx : Type 0} → Rx → RpcStream Rx
rpc_stream_new rx = record { rx = rx }

module _ {Other Rx : Type 0} {E : SdbTypes} (display : SdbAction → Text) (debug : SdbValue E → Text)
    (into_writer : Cbor Other → Ended (List ℕ)) (recv : Rx → Option (SdbNotification E) × Rx) where
  -- One call of `sr_rpc_stream_next`; `recv` is `recv_blocking`, which fails when the channel is closed.
  unfoldable pub poll : OutPtr → RpcStream Rx → Exit (List ℕ) × RpcStream Rx
  poll out stream =
      let (received, rx) = recv stream.rx in
      (rpc_stream_next display debug into_writer out received, record { rx = rx })

  -- What so many calls return.
  abbrev pub polls : ℕ → RpcStream Rx → List (Exit (List ℕ))
  polls zero s = []
  polls (suc n) s = let (x, t) = poll valid s in x ∷ polls n t

  -- The channel gives these notifications in order, and is then closed for good.
  abbrev pub Delivers : List (SdbNotification E) → Rx → Type 0
  Delivers [] rx = recv rx ≡ (none, rx)
  Delivers (n ∷ ns) rx = ((recv rx).0 ≡ some n) × Delivers ns (recv rx).1

  -- These are the encodings of the notifications.
  abbrev pub AreEncoded : List (SdbNotification E) → List (List ℕ) → Type 0
  AreEncoded [] [] = Unit
  AreEncoded (n ∷ ns) (b ∷ bs) =
      (into_writer (cbor_of display debug n) ≡ replied b) × AreEncoded ns bs
  AreEncoded _ _ = ⊥

  abbrev pub written : List ℕ → Exit (List ℕ)
  written b = returned (as_c_int (length b)) none (some b)

  abbrev pub closed : ℕ → List (Exit (List ℕ))
  closed zero = []
  closed (suc n) = returned sr_closed none none ∷ closed n

  polls-closed : (k : ℕ) (s : RpcStream Rx) → recv s.rx ≡ (none, s.rx) → polls k s ≡ closed k
  unfolding poll rpc_stream_next
  polls-closed zero s h = refl
  polls-closed (suc k) s h = rw h (ap (λ l. returned sr_closed none none ∷ l) (polls-closed k s h))

  poll-written :
      (s : RpcStream Rx) (n : SdbNotification E) (b : List ℕ)
      → (recv s.rx).0 ≡ some n
      → into_writer (cbor_of display debug n) ≡ replied b
      → (poll valid s).0 ≡ written b
  unfolding poll
  poll-written s n b h e = rw h (rpc_stream_next-cbor_of display debug into_writer n b e)

  -- A call for each notification, and `k` more.
  abbrev calls : List (SdbNotification E) → ℕ → ℕ
  calls [] k = k
  calls (n ∷ ns) k = suc (calls ns k)

  calls-length : (ns : List (SdbNotification E)) (k : ℕ) → calls ns k ≡ length ns + k
  calls-length [] k = omega arith
  calls-length (n ∷ ns) k = omega (arith, calls-length ns k)

  polls-calls :
      (ns : List (SdbNotification E)) (bs : List (List ℕ)) (rx : Rx) (k : ℕ)
      → Delivers ns rx
      → AreEncoded ns bs
      → polls (calls ns k) record { rx = rx } ≡ map written bs ++ closed k
  unfolding poll
  polls-calls [] [] rx k d e = polls-closed k record { rx = rx } d
  polls-calls [] (b ∷ bs) rx k d e = elim e [ ]
  polls-calls (n ∷ ns) [] rx k d e = elim e [ ]
  polls-calls (n ∷ ns) (b ∷ bs) rx k d e =
      ap₂ (λ x l. x ∷ l) (poll-written record { rx = rx } n b d.0 e.0)
        (polls-calls ns bs (recv rx).1 k d.1 e.1)

  -- A channel that gives some notifications, each of which is encoded, and is then closed: calling
  -- `sr_rpc_stream_next` on its stream writes the encodings, none missing and in order, and from then on
  -- returns `SR_CLOSED` at every call.
  pub polls-Delivers :
      (ns : List (SdbNotification E)) (bs : List (List ℕ)) (rx : Rx) (k : ℕ)
      → Delivers ns rx
      → AreEncoded ns bs
      → polls (length ns + k) (rpc_stream_new rx) ≡ map written bs ++ closed k
  unfolding rpc_stream_new
  polls-Delivers ns bs rx k d e =
      ap (λ n. polls n record { rx = rx }) (sym (calls-length ns k)) ∙ polls-calls ns bs rx k d e
