-- ===== src/Bitmap/Tests.antt =====
-- Runs and instances for rizzos/src/utils/bitmap.c and rizzos/src/memory.c.
use rizzos.Base.{◌≡◌, true, ◌&&◌, ◌==◌, if◌then◌else◌, some, arith}
use rizzos.Base.Bits.{test_bit}
use rizzos.Memory.{Mem, read64, write64, set64, set32, set8}
use rizzos.Memory.Fill.{filled, set-filled}
use rizzos.Memory.Words.{read64-write64}
use rizzos.Bitmap.{Bitmap, get, set}
use rizzos.Bitmap.Laws.{accepts, get-set, set-overrun}

abbrev zeroes : Mem
zeroes = λ x. 0

abbrev two_bytes : Bitmap
two_bytes = record { size = 2; buffer = 0x100 }

get-set_example :
    get (set zeroes two_bytes 9 true).1 two_bytes 9
    ≡ (if accepts two_bytes 9 && (9 == 9) then true else get zeroes two_bytes 9)
get-set_example = get-set zeroes two_bytes 9 9 true

set-overrun_example :
    ((set zeroes two_bytes 16 true).0 ≡ true)
    × (test_bit ((set zeroes two_bytes 16 true).1 0x102) 0 ≡ true)
set-overrun_example = set-overrun zeroes two_bytes true (omega arith)

set-filled_example :
    (set64 zeroes 0x1000 0x0102 13 ≡ some (filled 8 zeroes 0x1000 0x0102 16))
    × (set32 zeroes 0x1000 0x0102 13 ≡ some (filled 4 zeroes 0x1000 0x0102 16))
    × (set8 zeroes 0x1000 0x0102 13 ≡ some (filled 1 zeroes 0x1000 0x0102 13))
set-filled_example = set-filled zeroes 0x1000 0x0102 13 (omega arith)

read64-write64_example : read64 (write64 zeroes 0x1000 0xdead_beef) 0x1000 ≡ 0xdead_beef
read64-write64_example = read64-write64 zeroes 0x1000 0xdead_beef (omega arith)
