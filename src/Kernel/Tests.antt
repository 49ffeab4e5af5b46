-- ===== src/Kernel/Tests.antt =====
-- Runs and instances for rizzos/src/kernel.c.
use rizzos.Base.{refl, List, [], ◌∷◌, ℕ, ◌+◌, ◌^◌, ◌≤◌, ◌≡◌, arith, true, false, some}
use rizzos.Bitmap
use rizzos.Graphics.{FrameBuffer}
use rizzos.Graphics.Box.{IsFrame}
use rizzos.Graphics.Cursor.{IsOnScreen}
use rizzos.Kernel.Typing.{Typist, Types, key_interrupts, key_interrupts-Types}
use rizzos.Ports.{Ports}
use rizzos.Heap.{Heap, initialize_heap}
use rizzos.Interrupts.{IdtDescEntry}
use rizzos.Kernel.{Handlers, build_tables, initialize_interrupts, pages_of}
use rizzos.Kernel.Dispatch.{IsHandlers, target, line_target, initialize_interrupts-dispatches}
use rizzos.Kernel.Ready.{Ready, memory_and_heap-Ready}
use rizzos.Kernel.Start.{heap_address, heap_pages}
use rizzos.Kernel.Tables.{Built, build_tables-Built}
use rizzos.PageFrame.{Pfa, request_page, request_loop}
use rizzos.Paging.Mapper.{PageTableManager}
use rizzos.Paging.Mapper.Sample.{empty_root, empty_root-IsReady, enough_room}
use rizzos.Pic.Device.{Pair, mode_word, mask_word, pair_ports}

abbrev handlers : Handlers
handlers = record {
  page_fault = 0x101000;
  double_fault = 0x101100;
  gp_fault = 0x101200;
  keyboard = 0x101300;
  mouse = 0x101400;
  pit = 0x101500;
}

handlers-IsHandlers : IsHandlers handlers
handlers-IsHandlers = record {
  page_fault = omega arith;
  double_fault = omega arith;
  gp_fault = omega arith;
  keyboard = omega arith;
  mouse = omega arith;
  pit = omega arith;
}

-- Two controllers, the first in the middle of an initialisation
abbrev some_state : Pair
some_state = record {
  first = record {
    stage = mode_word;
    vector = 8;
    cascade = 4;
    mode = 0;
    mask = 0xb8;
    in_service = true;
  };
  second = record {
    stage = mask_word;
    vector = 0x70;
    cascade = 2;
    mode = 1;
    mask = 0x8e;
    in_service = true;
  };
}

-- An allocator whose first free page is 0x103
abbrev frames : Pfa
frames = record {
  free_memory = 0x10000;
  reserved_memory = 0;
  used_memory = 0;
  initialized = true;
  page_bitmap = record { size = 0x40; buffer = 0x3000 };
  last_reserved_page = 0x103;
  mem = λ a. 0;
}

abbrev no_entries : ℕ → IdtDescEntry
no_entries a = record {
  offset0 = 0;
  selector = 0;
  ist = 0;
  type_dpl_p = 0;
  offset1 = 0;
  offset2 = 0;
  reserved = 0;
}

page_fits : (request_page frames).0 + 0x1000 ≤ 2 ^ 64
unfolding request_page request_loop Bitmap.get
page_fits = omega arith

initialize_interrupts-dispatches_example :
    let ((idtr, entries'), p', _) =
      initialize_interrupts (pair_ports (λ port. 0)) 7 handlers some_state frames no_entries in
    (line_target idtr entries' p' 0 ≡ 0x101500)
    × (line_target idtr entries' p' 1 ≡ 0x101300)
    × (line_target idtr entries' p' 12 ≡ 0x101400)
    × (target idtr entries' 0x8 ≡ 0x101100)
    × (target idtr entries' 0xd ≡ 0x101200)
    × (target idtr entries' 0xe ≡ 0x101000)
initialize_interrupts-dispatches_example =
    initialize_interrupts-dispatches (λ port. 0) 7 handlers some_state frames no_entries
      handlers-IsHandlers page_fits

-- Two pages of pixels at 2 GiB
abbrev pixels : FrameBuffer
pixels = record {
  base_address = 0x8000_0000;
  buffer_size = 0x1001;
  width = 8;
  height = 16;
  pixel_per_scan_line = 16;
}

build_tables-Built_example :
    (manager : PageTableManager) × (s' : Pfa) × (build_tables pixels 0x3f123 empty_root
      ≡ some (manager, s'))
    × Built empty_root (pages_of 0x3f123) 0x8000_0000 (pages_of 0x1001) manager s'
build_tables-Built_example =
    build_tables-Built pixels 0x3f123 empty_root empty_root-IsReady (omega arith) (omega arith)
      (omega arith) (omega (arith, enough_room))

-- A heap that is still to be set up, over the same allocator
abbrev no_heap : Heap
no_heap = record {
  heap_start = 0;
  heap_end = 0;
  last_hdr = 0;
  seg = λ a. record { lenght = 0; next = 0; last = 0; free = false };
  manager = record { pml4 = 0 };
  frames = empty_root;
}

memory_and_heap-Ready_example :
    (manager : PageTableManager) × (p : Pfa) × (h' : Heap) × (build_tables pixels 0x7f123 empty_root
      ≡ some (manager, p))
    × (initialize_heap (record no_heap { manager = manager; frames = p }) heap_address heap_pages
        ≡ some h')
    × Ready 0x7f123 pixels h'
memory_and_heap-Ready_example =
    memory_and_heap-Ready no_heap pixels 0x7f123 empty_root-IsReady (omega arith) (omega arith)
      (omega arith) (omega (arith, enough_room))

-- Sixty-four by forty-eight pixels in lines of seventy-two, and the keys a, backspace and enter
abbrev small_frame : FrameBuffer
small_frame = record {
  base_address = 0x10000;
  buffer_size = 13824;
  width = 64;
  height = 48;
  pixel_per_scan_line = 72;
}

small_frame-IsFrame : IsFrame small_frame
small_frame-IsFrame = record {
  whole = refl;
  holds = omega arith;
  margin = omega arith;
  wide = omega arith;
  high = omega arith;
  flat = omega arith;
  room = omega arith;
}

next_code : List ℕ → ℕ × List ℕ
next_code [] = (0, [])
next_code (c ∷ cs) = (c, cs)

abbrev three_keys : Ports (List ℕ)
three_keys = record { in_byte = λ codes port. next_code codes; out_byte = λ codes port v. codes }

abbrev typist : Typist (List ℕ)
typist = record {
  keyboard = record { is_left_shift_pressed = false; is_right_shift_pressed = false };
  screen = record {
    cursor_position = record { x = 64; y = 32 };
    frame_buffer = small_frame;
    font = record { charsize = 16; glyph_buffer = 0x9000 };
    color = 0xffffffff;
    bg_color = 0;
    last_mouse_cur_pos = record { x = 0; y = 0 };
    mouse_last_cursor_buffer = λ i. 0;
    mem = λ a. 0;
  };
  devices = 0x1e ∷ 0x0e ∷ 0x1c ∷ [];
}

typist-IsOnScreen : IsOnScreen small_frame typist.screen
typist-IsOnScreen = record {
  frame = refl;
  left = omega arith;
  right = omega arith;
  column = omega arith;
  top = omega arith;
  bottom = omega arith;
}

key_interrupts-Types_example :
    Types small_frame small_frame-IsFrame typist (key_interrupts three_keys 0 3 typist)
key_interrupts-Types_example =
    key_interrupts-Types small_frame small_frame-IsFrame three_keys 0 3 typist typist-IsOnScreen
