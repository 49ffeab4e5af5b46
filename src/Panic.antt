-- ===== src/Panic.antt =====
-- rizzos/src/panic.c: what is drawn when the kernel gives up.
use Prim.Native.Char.{code}
use Prim.Native.String.{String}
use rizzos.Base.{ℕ, ◌>>=◌, List, [], ◌∷◌, Option}
use rizzos.Graphics.{Screen, set_bg_color, clear_bg, reset_cursor, print}

-- The bytes of a text
unfoldable pub bytes_of : String → List ℕ
bytes_of String.[] = []
bytes_of (String.◌∷◌ c s) = code c ∷ bytes_of s

-- `Panic`, with the text that the last `print` makes of "Error: %s\n" and the message
unfoldable pub panic : Screen → (error_line : List ℕ) → Option Screen
panic s error_line = clear_bg (set_bg_color s 0xff2b1e19) >>= λ cleared.
    print (reset_cursor cleared) (bytes_of "Rizzos Copyright 2024-2025 Mahan Farzaneh GLP3.0\n\n")
    >>= λ s1. print s1 (bytes_of "---- KERNEL PANIC ----\n") >>= λ s2. print s2 error_line

-- The three handlers of rizzos/src/interrupts/interrupts.c that give up, with what the last `print`
-- makes of a message; the loops that they end in are not here.
module _ (error_line : List ℕ → List ℕ) where
  unfoldable pub page_fault_handler : Screen → Option Screen
  page_fault_handler s = panic s (error_line (bytes_of "Page Fault Detected!"))

  unfoldable pub double_fault_handler : Screen → Option Screen
  double_fault_handler s = panic s (error_line (bytes_of "Double Fault Detected!"))

  unfoldable pub gp_fault_handler : Screen → Option Screen
  gp_fault_handler s = panic s (error_line (bytes_of "General Protection Fault Detected!"))
