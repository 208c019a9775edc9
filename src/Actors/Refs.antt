-- ===== src/Actors/Refs.antt =====
-- Spawn and ActorRef. A call is taken whole, as in Actors/Registry.antt; what other threads do to the
-- registry between the two tests of its gate in Spawn is the parameter `meanwhile`.
mod Tests
use my_utils.Base.{
  ℕ, ◌≡◌, ◌⊎◌, inl, inr, refl, Bool, true, false, not, List, [], ◌∷◌, ◌++◌, Option, none, some,
  arith, update, Bool-cases, subst, if◌then◌else◌,
}
use my_utils.Assert.{Checked, ok, assert, ◌>>◌}
use my_utils.Counters.{remove}
use my_utils.Actors.Block.{ActorState, idle, scheduled, running, stopping, dead}
use my_utils.Actors.Registry.{
  Acb, Registry, Body, finalized, try_register, close_gate, finalize, stop, finalize_each,
  finalize_all, shutdown,
}
use my_utils.Actors.Shutdown.{In, IsSettled, Joins, shutdown-blocks, shutdown-accepting}

-- ActorRef, by the name of its control block.
abbrev pub ActorRef : Type 0
ActorRef = Option ℕ

-- ActorControlBlock(actor)
abbrev pub new_block : Acb
new_block = record { state = idle; finalize_started = false; mailbox = []; has_actor = true }

-- Spawn, of a new control block at `c`; `actor` says that the pointer is not null.
unfoldable pub register_new :
    (meanwhile : Registry → Registry) → Body → ℕ → Checked (Body × ActorRef)
register_new meanwhile b c =
    let r = meanwhile (record b.registry { blocks = update b.registry.blocks c new_block }) in
    let (r', registered) = try_register r c in
    ok (record b { registry = r' }, if registered then some c else none)

unfoldable pub spawn :
    (meanwhile : Registry → Registry) → Body → ℕ → (actor : Bool) → Checked (Body × ActorRef)
unfolding register_new
spawn meanwhile b c actor = do
  assert actor
  (if b.registry.accepting then register_new meanwhile b c else ok (b, none))

-- The push of a message, and TrySchedule. The queues of the pool are not part of this state; Submit
-- fails only where the pool is stopping.
unfoldable pub accept_message : Body → ℕ → ℕ → Body
accept_message b c message =
    let box = (b.registry.blocks c).mailbox ++ message ∷ [] in
    let state' : ActorState = elim (b.registry.blocks c).state [
      | idle ↦ if b.pool_stopping then idle else scheduled
      | s ↦ s
    ] in
    record b {
      registry = record b.registry {
        blocks =
            update b.registry.blocks c
              (record (b.registry.blocks c) { state = state'; mailbox = box });
      };
    }

-- ActorControlBlock::Send
unfoldable pub send_block : Body → ℕ → Option ℕ → Body × Bool
unfolding accept_message
send_block b c none = (b, false)
send_block b c (some message) = elim (b.registry.blocks c).state [
  | stopping ↦ (b, false)
  | dead ↦ (b, false)
  | _ ↦ (accept_message b c message, true)
]

-- ActorRef::Send and ActorRef::Stop
unfoldable pub send : Body → ActorRef → Option ℕ → Body × Bool
unfolding send_block
send b none message = (b, false)
send b (some c) message = send_block b c message

unfoldable pub stop_ref : Body → ActorRef → Body
unfolding stop
stop_ref b none = b
stop_ref b (some c) = record b { registry = stop b.registry c }

-- A reference that Spawn gives out is to a registered actor, whatever happened between its tests.
pub spawn-In :
    (meanwhile : Registry → Registry) (b b' : Body) (c : ℕ) (actor : Bool)
    → spawn meanwhile b c actor ≡ ok (b', some c)
    → In c b'.registry.members
unfolding spawn
spawn-In meanwhile b b' c false ran = cc
spawn-In meanwhile b b' c true ran = elim (Bool-cases b.registry.accepting) [
  | inr closed ↦ cc (closed, ran)
  | inl gate ↦ elim (Bool-cases (meanwhile made).accepting) [
    | inr closed ↦ cc (gate, closed, ran)
    | inl late_gate ↦ subst (In c) (members_after gate late_gate) first_in
  ]
]
  where
    made : Registry
    made = record b.registry { blocks = update b.registry.blocks c new_block }

    members_after :
        b.registry.accepting ≡ true
        → (meanwhile made).accepting ≡ true
        → c ∷ remove c (meanwhile made).members ≡ b'.registry.members
    members_after gate late_gate = cc (gate, late_gate, ran)

    first_in : In c (c ∷ remove c (meanwhile made).members)
    first_in = inl refl

-- After the first Shutdown, where the workers and the other threads, until the workers are joined, leave
-- the gate of the registry as it is, leave no Finalize half done, undo none and take an actor out of the
-- registry only finalized, and no other thread is inside a Stop while FinalizeAll runs, a reference to
-- an actor that was registered or finalized when Shutdown started is refused by Send and left alone by
-- Stop, which change nothing; and Spawn gives out no reference. No Finalize is half done when Shutdown
-- starts.
pub refs_end_with_runtime :
    (join meanwhile : Registry → Registry) (b : Body) (c d message : ℕ)
    → Joins join
    → ((r : Registry) → r.blocks c ≡ finalized → (join r).blocks c ≡ finalized)
    → b.shutdown_started ≡ false
    → IsSettled b.registry
    → In c b.registry.members ⊎ (b.registry.blocks c ≡ finalized)
    → (send (shutdown join b) (some c) (some message) ≡ (shutdown join b, false))
      × (stop_ref (shutdown join b) (some c) ≡ shutdown join b)
      × (spawn meanwhile (shutdown join b) d true ≡ ok (shutdown join b, none))
unfolding send stop_ref spawn
refs_end_with_runtime join meanwhile b c d message joins stays first settled known =
    (ground (arith, ended), ground (arith, ended), rw (shutdown-accepting join b joins first) refl)
  where
    kept :
        In c b.registry.members ⊎ (b.registry.blocks c ≡ finalized)
        → In c (join (close_gate b.registry)).members
          ⊎ ((join (close_gate b.registry)).blocks c ≡ finalized)
    kept (inl member) = joins.keeps_members (close_gate b.registry) c member
    kept (inr e) = inr (stays (close_gate b.registry) e)

    ended : (shutdown join b).registry.blocks c ≡ finalized
    ended = shutdown-blocks join b c joins first settled (kept known)
