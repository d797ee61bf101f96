-- ===== src/Acoustic/Runs.antt =====
-- acoustic_loopback.cpp on a bearer of one byte a nanosecond.
use arun_work.Base.{◌≡◌, refl, Bool, true, false, List, [], ◌∷◌, arith, length}
use arun_work.Base.Int.{pos, ◌+ℤ◌, ◌-ℤ◌, ◌/ℤ◌}
use arun_work.Acoustic.{
  Config, LoopbackBearer, Call, offers, advances, drains, normal, urgent, bulk, new, run, offer,
  advance, serialization_ns, apply_call, send, drain, waiting, ready, ceil_div, arrival_ns,
  with_stats,
}
use arun_work.Acoustic.Channel.{IsConfig}
use arun_work.Acoustic.Delivered.{IsPunctual, run-new-IsPunctual, offer_ignores_priority}

abbrev cfg : Config
cfg = record { propagation_ns = pos 10; bits_per_second = pos 8_000_000_000; max_frame_bytes = 4 }

-- The rolls still to come; none of them loses a frame at the end.
abbrev roll : List Bool → Bool × List Bool
roll [] = (false, [])
roll (b ∷ bs) = (b, bs)

-- Sent, too long, busy, sent and lost, sent again.
abbrev calls : List Call
calls =
    offers (1 ∷ 2 ∷ 3 ∷ []) normal (pos 100)
    ∷ offers (1 ∷ 2 ∷ 3 ∷ 4 ∷ 5 ∷ []) normal (pos 100)
    ∷ offers (4 ∷ []) urgent (pos 100)
    ∷ advances (pos 3)
    ∷ offers (5 ∷ 6 ∷ []) normal (pos 100)
    ∷ advances (pos 2)
    ∷ offers (7 ∷ []) bulk (pos 100)
    ∷ advances (pos 9)
    ∷ drains
    ∷ []

abbrev bearer : LoopbackBearer (List Bool)
bearer = new cfg (false ∷ true ∷ [])

fair : IsConfig cfg
fair = (omega arith, omega arith)

run-new-IsPunctual_example : IsPunctual (run roll bearer calls)
run-new-IsPunctual_example =
    run-new-IsPunctual roll cfg (false ∷ true ∷ []) calls fair
      (tt, (tt, (tt, (omega arith, (tt, (omega arith, (tt, (omega arith, (tt, tt)))))))))

offer_ignores_priority_example :
    let (answer, c) = offer roll bearer (1 ∷ []) bulk (pos 20) in
    let (answer', c') = offer roll bearer (1 ∷ []) urgent (pos 20) in
    (answer ≡ answer') × (c.stats ≡ c'.stats) × (c.channel_free_at ≡ c'.channel_free_at)
offer_ignores_priority_example = offer_ignores_priority roll bearer (1 ∷ []) bulk urgent (pos 20)

-- One frame is still under way when the other has been drained; one was refused for its size, one
-- for the busy channel, one was lost.
run_test :
    let b = run roll bearer calls in
    (length b.in_flight ≡ 1)
    × (length b.delivered ≡ 0)
    × (b.stats.rejected_size ≡ 1)
    × (b.stats.rejected_busy ≡ 1)
    × (b.stats.lost ≡ 1)
unfolding run new apply_call offer send advance drain waiting ready arrival_ns serialization_ns
    ceil_div with_stats ◌+ℤ◌ ◌-ℤ◌ ◌/ℤ◌
run_test = (refl, refl, refl, refl, refl)
