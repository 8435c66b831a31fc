-- ===== src/Tests/Devices.antt =====
-- A Read that meets a swap, and one that meets a close.
use awl.Base.{◌+◌, ◌*◌, ◌≤◌, ◌⊎◌, refl}
use awl.Vpn.SwappableTun.{
  SwappableTun, refused, load, check_closed, check_swapped, begin_swap, exchange, close_old,
  begin_close, close_current, loads, refuses, looks, compares, swaps_to, exchanges, closes_old,
  closes, closes_current, new_swappable_tun, Reach, here, later,
}
use awl.Vpn.SwappableTun.Sound.{IsGone}
use awl.Vpn.SwappableTun.Safety.{failed-IsGone, read_ends, HasReturned, CanStep}

abbrev at_start : SwappableTun
at_start = new_swappable_tun 1 1

-- the wrapper is closed while device 1 is read
abbrev after_close : SwappableTun
after_close = close_current (begin_close (load at_start))

abbrev after_read : SwappableTun
after_read =
    check_closed (record after_close { reader = refused 1; steps = after_close.steps + 1 }) 1

closed_run : Reach at_start after_read
unfolding load begin_close close_current check_closed
closed_run =
    later
      (later (later (later (later here (loads refl)) (closes refl)) (closes_current refl))
        (refuses refl refl))
      (looks refl)

failed-IsGone_example : IsGone after_read 1
unfolding load begin_close close_current check_closed
failed-IsGone_example = failed-IsGone 1 closed_run refl

-- device 2 takes over while device 1 is read
abbrev after_swap : SwappableTun
after_swap = close_old (exchange (begin_swap (load at_start) 2 1) 2) 1

abbrev after_retry : SwappableTun
after_retry =
    check_swapped
      (check_closed (record after_swap { reader = refused 1; steps = after_swap.steps + 1 }) 1) 1

swapped_run : Reach at_start after_retry
unfolding load begin_swap exchange close_old check_closed check_swapped
swapped_run =
    later
      (later
        (later
          (later
            (later (later (later here (loads refl)) (swaps_to 2 1 refl refl refl)) (exchanges refl))
            (closes_old refl))
          (refuses refl refl))
        (looks refl))
      (compares refl)

read_ends_example :
    (HasReturned after_retry.reader ⊎ CanStep after_retry)
    × (after_retry.steps ≤ 4 * (after_retry.swaps + 1))
read_ends_example = read_ends swapped_run
