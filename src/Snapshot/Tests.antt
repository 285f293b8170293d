-- ===== src/Snapshot/Tests.antt =====
-- The theorems about snapshots at concrete states.
use quake2world.Prelude.{ℕ, zero, suc, ◌-◌, refl, true, some, ◌∷◌, arith, replicate, ◌^◌}
use quake2world.MemBuf.{MemBuf, init_buffer}
use quake2world.MemBuf.Valid.{IsValid}
use quake2world.Message.RoundTrip.{RoundTrip}
use quake2world.Snapshot.PlayerState.{
  PlayerState, clean, write_player_state, read_player_state, pm_freeze,
}
use quake2world.Snapshot.PlayerState.Stats.{AreShorts}
use quake2world.Snapshot.PlayerState.RoundTrips.{IsPlayerState, player_state_roundtrip}

abbrev empty : MemBuf
empty = init_buffer (replicate 120 0) 120

empty-IsValid : IsValid empty
empty-IsValid = omega arith

abbrev running : PlayerState
running = record {
  pm_state = record clean.pm_state {
    pm_type = 1;
    origin = record { x = 8; y = 2 ^ 16 - 8; z = 0 };
    flags = 5;
    gravity = 800;
  };
  stats = 100 ∷ 65535 ∷ replicate 30 7;
}

sevens : (n : ℕ) → AreShorts (replicate n 7)
sevens zero = tt
sevens (suc n) = (omega arith, sevens n)

running-IsPlayerState : IsPlayerState running
running-IsPlayerState = record {
  pm_state = omega arith;
  stats = (omega arith, (omega arith, sevens 30));
  count = refl;
}

player_state_roundtrip_example :
    RoundTrip
      (write_player_state (some clean) running)
      (read_player_state true (some clean))
      (record running { pm_state = record running.pm_state { pm_type = pm_freeze } })
      empty
player_state_roundtrip_example =
    player_state_roundtrip (some clean) running true empty running-IsPlayerState refl empty-IsValid
      (omega arith)
