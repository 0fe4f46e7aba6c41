-- ===== src/Console.antt =====
-- kern/console_driver.c: the console over its video memory, with the logical cursor and the registers of
-- the hardware cursor. Addresses are offsets from CONSOLE_MEM_BASE; a character is a byte.
pub mod Scroll
pub mod Display
pub mod Pictures
pub mod Typed
pub mod Cursor
pub mod Requests
mod Tests
use os_p.Base.{
  ℕ, zero, suc, ◌+◌, ◌-◌, ◌*◌, ◌/◌, ◌%◌, ◌≡◌, Bool, true, false, not, ◌&&◌, ◌||◌, List, [], ◌∷◌,
  Option, none, some, ltb, ◌==◌, if◌then◌else◌,
}
use os_p.Base.Int.{ℤ, pos, negsuc, pos_part, ltb_ℤ}

abbrev pub console_width : ℕ
console_width = 80

abbrev pub console_height : ℕ
console_height = 25

abbrev pub backspace : ℕ
backspace = 8

abbrev pub newline : ℕ
newline = 10

abbrev pub carriage_return : ℕ
carriage_return = 13

abbrev pub space : ℕ
space = 32

pub record Console : Type 0 where
  pub mem : ℕ → ℕ
  pub term_color : ℕ
  pub logical_cursor : ℕ
  pub is_hidden : Bool
  pub crtc_lsb : ℕ
  pub crtc_msb : ℕ

abbrev pub l2p : ℕ → ℕ → ℕ
l2p row col = row * console_width + col

abbrev pub p2r : ℕ → ℕ
p2r offset = offset / console_width

abbrev pub p2c : ℕ → ℕ
p2c offset = offset % console_width

-- The bits from 8 up are clear.
abbrev pub check_color : ℤ → Bool
check_color (pos n) = n / 256 == 0
check_color (negsuc n) = false

abbrev pub check_row : ℤ → Bool
check_row (pos n) = ltb n console_height
check_row (negsuc n) = false

abbrev pub check_col : ℤ → Bool
check_col (pos n) = ltb n console_width
check_col (negsuc n) = false

abbrev pub store : (ℕ → ℕ) → ℕ → ℕ → ℕ → ℕ
store m a v x = if x == a then v else m x

-- A character and its color at a position.
abbrev pub put_cell : (ℕ → ℕ) → ℕ → ℕ → ℕ → ℕ → ℕ
put_cell m offset ch color = store (store m (2 * offset) ch) (2 * offset + 1) color

-- The registers hold the position at which the boot code left the cursor.
pub init_console_driver : (ℕ → ℕ) → (crtc_lsb crtc_msb : ℕ) → Console
init_console_driver m lsb msb = record {
  mem = m;
  term_color = m 1;
  logical_cursor = msb * 256 + lsb;
  is_hidden = false;
  crtc_lsb = lsb;
  crtc_msb = msb;
}

pub set_hardware_cursor : ℕ → Console → Console
set_hardware_cursor offset c = record c { crtc_lsb = offset % 256; crtc_msb = offset / 256 % 256 }

-- `n` rounds of the first loop of `scrollup` from the offset `i`.
pub copy_loop : (n i : ℕ) → (ℕ → ℕ) → ℕ → ℕ
copy_loop zero i m = m
copy_loop (suc n) i m =
    let offset = console_width * 2 in
    let copied = store m i (m (i + offset)) in
    copy_loop n (i + 2) (store copied (i + 1) (copied (i + 1 + offset)))

-- `n` rounds of a loop that puts spaces from the offset `i`.
pub blank_loop : (n i color : ℕ) → (ℕ → ℕ) → ℕ → ℕ
blank_loop zero i color m = m
blank_loop (suc n) i color m = blank_loop n (i + 2) color (store (store m i space) (i + 1) color)

pub scrollup : Console → Console
scrollup c =
    let rows = (console_height - 1) * console_width in
    record c { mem = blank_loop console_width (rows * 2) c.term_color (copy_loop rows 0 c.mem) }

abbrev pub move_cursor : ℕ → Console → Console
move_cursor offset c = record c { logical_cursor = offset }

-- The four cases of the switch of `putbyte`.
pub line_feed : Console → Console
line_feed c =
    let offset = c.logical_cursor in
    if p2r offset == console_height - 1
    then move_cursor (l2p (p2r offset) 0) (scrollup c)
    else move_cursor (l2p (p2r offset + 1) 0) c

abbrev pub line_start : Console → Console
line_start c = move_cursor (l2p (p2r c.logical_cursor) 0) c

pub erase : Console → Console
erase c =
    let offset = c.logical_cursor - 1 in
    if ltb 0 (p2c c.logical_cursor)
    then record c { logical_cursor = offset; mem = put_cell c.mem offset space c.term_color }
    else c

pub put_char : ℕ → Console → Console
put_char ch c =
    let offset = c.logical_cursor in
    let written = record c { mem = put_cell c.mem offset ch c.term_color } in
    if offset == console_height * console_width - 1
    then move_cursor (l2p (p2r offset) 0) (scrollup written)
    else move_cursor (offset + 1) written

pub print : ℕ → Console → Console
print ch c =
    if ch == newline
    then line_feed c
    else if ch == carriage_return
    then line_start c
    else if ch == backspace
    then erase c
    else put_char ch c

pub show_at : Console → Console
show_at c = if not c.is_hidden then set_hardware_cursor c.logical_cursor c else c

pub putbyte : ℕ → Console → Console
putbyte ch c = show_at (print ch c)

pub putbytes_loop : (n i : ℕ) → (ℕ → ℕ) → Console → Console
putbytes_loop zero i s c = c
putbytes_loop (suc n) i s c = putbytes_loop n (i + 1) s (putbyte (s i) c)

-- A null pointer is `none`.
pub putbytes : Option (ℕ → ℕ) → ℤ → Console → Console
putbytes none len c = c
putbytes (some s) len c = putbytes_loop (pos_part len) 0 s c

pub draw_char : ℤ → ℤ → ℕ → ℤ → Console → Console
draw_char row col ch color c =
    if not (check_row row && check_col col && check_color color) then c else record c {
      mem =
          put_cell c.mem (pos_part row * console_width + pos_part col) (ch % 256)
            (pos_part color % 256);
    }

pub get_char : ℤ → ℤ → Console → ℕ
get_char row col c =
    if not (check_row row && check_col col)
    then 0
    else c.mem (2 * (pos_part row * console_width + pos_part col))

pub set_term_color : ℤ → Console → ℤ × Console
set_term_color color c =
    if not (check_color color)
    then (negsuc 0, c)
    else (pos 0, record c { term_color = pos_part color })

pub set_cursor : ℤ → ℤ → Console → ℤ × Console
set_cursor row col c =
    if not (check_row row && check_col col)
    then (negsuc 0, c)
    else (pos 0, show_at (move_cursor (l2p (pos_part row) (pos_part col)) c))

pub get_cursor : Console → ℤ × ℤ
get_cursor c = (pos (p2r c.logical_cursor), pos (p2c c.logical_cursor))

pub hide_cursor : Console → Console
hide_cursor c = set_hardware_cursor (console_width * console_width) (record c { is_hidden = true })

pub show_cursor : Console → Console
show_cursor c = set_hardware_cursor c.logical_cursor (record c { is_hidden = false })

pub clear_console : Console → Console
clear_console c =
    let cleared = record c {
      mem = blank_loop (console_height * console_width) 0 c.term_color c.mem;
      logical_cursor = 0;
    } in
    if not c.is_hidden then set_hardware_cursor 0 cleared else cleared
