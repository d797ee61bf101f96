-- ===== src/Programs/Runs/Swarm.antt =====
-- apps/mw_acoustic_demo.cpp in a water that loses every second frame.
use arun_work.Base.{◌+◌, ◌≡◌, refl, Bool, true, not, [], length}
use arun_work.Base.Int.{◌+ℤ◌, ◌-ℤ◌, ◌/ℤ◌}
use arun_work.Acoustic.{
  new, send, offer, advance, waiting, ready, with_stats, arrival_ns, serialization_ns, ceil_div,
}
use arun_work.Programs.AcousticDemo.{acoustic_demo, take_turn, take_turns, run_cycles}
use arun_work.Programs.AcousticDemo.Turns.{acoustic_demo-counts}

abbrev every_second : Bool → Bool × Bool
every_second lost = (lost, not lost)

delivered_test : length (acoustic_demo every_second true).bearer.delivered ≡ 25
unfolding acoustic_demo run_cycles take_turns take_turn new send offer advance waiting ready
    with_stats arrival_ns serialization_ns ceil_div ◌+ℤ◌ ◌-ℤ◌ ◌/ℤ◌
delivered_test = refl

acoustic_demo-counts_example :
    let t = acoustic_demo every_second true in
    (t.offered ≡ 50)
    × (t.accepted ≡ 50)
    × (t.bearer.stats.offered ≡ 50)
    × (t.bearer.stats.accepted ≡ 50)
    × (t.bearer.stats.rejected_size + t.bearer.stats.rejected_late + t.bearer.stats.rejected_busy
        ≡ 0)
    × (t.bearer.in_flight ≡ [])
    × (t.bearer.stats.lost + length t.bearer.delivered ≡ 50)
acoustic_demo-counts_example = acoustic_demo-counts every_second true
