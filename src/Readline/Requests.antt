-- ===== src/Readline/Requests.antt =====
-- A whole readline() request.
use os_p.Base.{
  ℕ, ◌<◌, ◌≡◌, refl, Bool, true, false, List, [], ◌∷◌, ◌++◌, none, some, if◌then◌else◌, length,
  arith,
}
use os_p.Readline.{Reader, read_loop, smp_syscall_readline, has_read_waiting_thr}
use os_p.Readline.Ring.{Ring}
use os_p.Readline.Line.{edit}
use os_p.Readline.Serve.{Served, Returns, loop-Served}

module _ {K A : Type 0} (process_scancode : K → ℕ → K × A) (kh_hasdata kh_ismake : A → Bool)
    (kh_getchar : A → ℕ) where
  -- If nobody waits for input and the ring holds the scancodes xs, then with fuel for more
  -- characters than scancodes smp_syscall_readline ends: the line is edited by the characters of
  -- xs, a backspace taking the last one away, up to a newline or to the length asked for. A
  -- complete line is answered once, with the number of its characters, it stands in the buffer of
  -- the request, and the ring holds the scancodes behind it; otherwise the ring is empty and the
  -- thread of the request waits with the line so far.
  pub smp_syscall_readline-Served :
      (fuel : ℕ) (b : Reader K) (m : ℕ) (xs : List ℕ)
      → b.read_waiting_thr ≡ none
      → Ring b.keys xs
      → length xs < fuel
      → Returns
          (Served b m (
            edit process_scancode kh_hasdata kh_ismake kh_getchar
              (b.msgs m).len
              []
              b.keys.decoder
              xs))
          (smp_syscall_readline process_scancode kh_hasdata kh_ismake kh_getchar fuel m b)
  unfolding smp_syscall_readline has_read_waiting_thr
  smp_syscall_readline-Served fuel b m xs w r a =
      let begun : Reader K = record b {
        reading_count = 0;
        reading_length = (b.msgs m).len;
        reading_buf = (b.msgs m).kernel_buf;
      } in
      let h : Returns
          (Served b m (
            edit process_scancode kh_hasdata kh_ismake kh_getchar (b.msgs m).len [] b.keys.decoder
              xs))
          (read_loop process_scancode kh_hasdata kh_ismake kh_getchar fuel m begun) =
        loop-Served process_scancode kh_hasdata kh_ismake kh_getchar fuel b begun m [] xs
          (record { msgs = refl; sent = refl; queue = refl; my_msg = refl }) w
          (record {
            count = refl;
            length_at = refl;
            buf_at = refl;
            fits = omega arith;
            written = tt;
            ring = r;
          })
          a in
      let t : has_read_waiting_thr b ≡ false = rw (has_read_waiting_thr, w) refl in
      elim (has_read_waiting_thr b)
          as (λ (z : Bool).
            z ≡ false
            → Returns
                (Served b m (
                  edit process_scancode kh_hasdata kh_ismake kh_getchar (b.msgs m).len []
                    b.keys.decoder xs))
                (if z
                  then some (record b { readline_queue = b.readline_queue ++ (m ∷ []) })
                  else read_loop process_scancode kh_hasdata kh_ismake kh_getchar fuel m begun)) [
                    | true ↦ λ z. absurd (true≢false z)
                    | false ↦ λ z. h
                  ]
        t
    where
      true≢false : true ≡ false → ⊥
      true≢false z = cc
