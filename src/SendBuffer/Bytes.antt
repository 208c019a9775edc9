-- ===== src/SendBuffer/Bytes.antt =====
-- The bytes that a program writes through WritableData and reads through a view. The storage of a
-- chunk keeps its bytes whatever the API does: what new storage holds is left open.
pub mod Laws
mod Tests
use my_utils.Base.{ℕ, ◌+◌, ◌<◌, ◌≡◌, ◌≢◌, Option, none, some, ◌==◌, if◌then◌else◌}
use my_utils.Assert.{ok}
use my_utils.Queue.{ConcurrentQueue}
use my_utils.SendBuffer.Buffer.{SendBuffer, SendView, writable_data}
use my_utils.SendBuffer.World
use my_utils.SendBuffer.World.{World, Object, buffer, initial}

-- The byte at an index of the storage of a chunk.
abbrev pub Bytes : Type 0
Bytes = ℕ → ℕ → ℕ

abbrev pub write : Bytes → ℕ → ℕ → ℕ → Bytes
write bytes c index value d x =
    if d == c then (if x == index then value else bytes d x) else bytes d x

abbrev pub read_from : Bytes → Option (ℕ × ℕ) → ℕ → Option ℕ
read_from bytes none k = none
read_from bytes (some (c, start)) k = some (bytes c (start + k))

-- Data()[k] of a view.
abbrev pub read_view : Bytes → SendView → ℕ → Option ℕ
read_view bytes v k = read_from bytes v.start k

pub record Stored (Q : Type 0) : Type 0 where
  pub world : World Q
  pub bytes : Bytes

module _ {Q : Type 0} (queue : ConcurrentQueue Q) (n : ℕ) where
  -- Steps from one state to another, none of which writes through place `i`, and after each of
  -- which place `i` holds the object `o`. A step is a call of the API, or a write of a byte through
  -- a buffer, inside its capacity.
  pub data Keeps (i : ℕ) (o : Object) (f : Stored Q) : Stored Q → Type 0 where
    no_step : Keeps i o f f
    then_call :
        {g : Stored Q} {w : World Q}
        → Keeps i o f g
        → World.Step queue n g.world w
        → w.objects i ≡ o
        → Keeps i o f (record g { world = w })
    then_write :
        {g : Stored Q} (j k value : ℕ) (b : SendBuffer) {c start : ℕ}
        → Keeps i o f g
        → j ≢ i
        → g.world.objects j ≡ buffer b
        → writable_data b ≡ ok (c, start)
        → k < b.capacity
        → Keeps i o f (record g { bytes = write g.bytes c (start + k) value })
