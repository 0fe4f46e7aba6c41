-- ===== src/Console/Scroll.antt =====
-- What the loops over the video memory leave at each address.
use os_p.Base.{ℕ, zero, suc, ◌+◌, ◌-◌, ◌*◌, ◌%◌, ◌≡◌, ltb, leb, ◌==◌, ◌&&◌, if◌then◌else◌, arith}
use os_p.Console.{store, copy_loop, blank_loop, space}

pub copy_loop-copies :
    (n i : ℕ) (m : ℕ → ℕ) (x : ℕ)
    → copy_loop n i m x ≡ (if leb i x && ltb x (i + 2 * n) then m (x + 160) else m x)
unfolding copy_loop
copy_loop-copies zero i m x = ground arith
copy_loop-copies (suc n) i m x =
    let copied = store m i (m (i + 160)) in
    ground (arith, copy_loop-copies n (i + 2) (store copied (i + 1) (copied (i + 1 + 160))) x)

pub blank_loop-blanks :
    (n i color : ℕ) (m : ℕ → ℕ) (x : ℕ)
    → blank_loop n i color m x
      ≡ (if leb i x && ltb x (i + 2 * n) then (if (x - i) % 2 == 0 then space else color) else m x)
unfolding blank_loop
blank_loop-blanks zero i color m x = ground arith
blank_loop-blanks (suc n) i color m x =
    ground (arith, blank_loop-blanks n (i + 2) color (store (store m i space) (i + 1) color) x)
