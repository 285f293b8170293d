-- ===== src/Snapshot/PlayerState/Stats.antt =====
-- The stats of a `player_state_t` through their bit set and their shorts.
use quake2world.Prelude.{
  ℕ, suc, ◌+◌, ◌^◌, ◌≤◌, ◌<◌, ◌≡◌, refl, sym, subst, ap, ◌∙◌, false, List, [], ◌∷◌, ◌++◌, arith,
  length, length-append, test_bit, from_bits, test_bit-from_bits, from_bits-lt, get_or,
}
use quake2world.Message.Delta.{length-given, Reads-short_field}
use quake2world.Message.Write.{short_bytes, given}
use quake2world.Message.Write.Rules.{Writes, Writes-seq, Writes-if, Writes-skip, Writes-write_short}
use quake2world.Message.Read.Rules.{Reads, Reads-bind, Reads-pure, Reads-map}
use quake2world.Snapshot.PlayerState.{stat_changes, max_stats, write_stats, read_stats}

-- every stat fits int16_t
abbrev pub AreShorts : List ℕ → Type 0
AreShorts [] = Unit
AreShorts (s ∷ stats) = (s < 2 ^ 16) × AreShorts stats

pub stats_bytes : ℕ → ℕ → List ℕ → List ℕ
stats_bytes bits i [] = []
stats_bytes bits i (s ∷ stats) =
    given (test_bit bits i) (short_bytes s) ++ stats_bytes bits (i + 1) stats

pub stats-Writes :
    (bits i : ℕ) (stats : List ℕ) → Writes (write_stats bits i stats) (stats_bytes bits i stats)
unfolding write_stats stats_bytes
stats-Writes bits i [] = Writes-skip
stats-Writes bits i (s ∷ stats) =
    Writes-seq (Writes-if (test_bit bits i) (Writes-write_short s))
      (stats-Writes bits (i + 1) stats)

pub length-stats_bytes :
    (bits i : ℕ) (stats : List ℕ) → length (stats_bytes bits i stats) ≤ length stats + length stats
unfolding stats_bytes
length-stats_bytes bits i [] = omega arith
length-stats_bytes bits i (s ∷ stats) = omega (
  arith,
  length-append (given (test_bit bits i) (short_bytes s)) (stats_bytes bits (i + 1) stats),
  length-given (test_bit bits i) (short_bytes s),
  length-stats_bytes bits (i + 1) stats,
)

-- If the bits from `i` on say which stats changed, the reader rebuilds the sender's.
stats_from :
    (bits i : ℕ) (stats old : List ℕ)
    → length stats ≡ length old
    → AreShorts stats
    → ((k : ℕ) → test_bit bits (i + k) ≡ get_or (stat_changes stats old) k false)
    → Reads (read_stats bits i old) (stats_bytes bits i stats) stats
unfolding read_stats stats_bytes
stats_from bits i [] [] l r b = Reads-pure []
stats_from bits i [] (o ∷ old) l r b = absurd (omega arith)
stats_from bits i (s ∷ stats) [] l r b = absurd (omega arith)
stats_from bits i (s ∷ stats) (o ∷ old) l r b =
    Reads-bind _ (Reads-short_field _ _ (ap (test_bit bits) (omega arith) ∙ b 0) r.0) (
      Reads-map _ (s ∷ stats) refl (
        stats_from bits (i + 1) stats old (omega arith) r.1
          (λ k. ap (test_bit bits) (omega arith) ∙ b (suc k))))

module _ (stats old : List ℕ) where
  pub stats-Reads :
      length stats ≡ length old
      → AreShorts stats
      → let bits = from_bits (stat_changes stats old) in
        Reads (read_stats bits 0 old) (stats_bytes bits 0 stats) stats
  stats-Reads l r =
      let changes = stat_changes stats old in
      stats_from (from_bits changes) 0 stats old l r
        (λ k. ap (test_bit (from_bits changes)) (omega arith) ∙ test_bit-from_bits changes k)

length-stat_changes :
    (stats old : List ℕ)
    → length stats ≡ length old
    → length (stat_changes stats old) ≡ length stats
length-stat_changes [] old l = refl
length-stat_changes (s ∷ stats) [] l = absurd (omega arith)
length-stat_changes (s ∷ stats) (o ∷ old) l = ap suc (length-stat_changes stats old (omega arith))

-- The bit set of MAX_STATS stats fits its long.
pub stat_bits-lt :
    (stats old : List ℕ)
    → length stats ≡ max_stats
    → length old ≡ max_stats
    → from_bits (stat_changes stats old) < 2 ^ 32
stat_bits-lt stats old l k =
    subst (λ (n : ℕ). from_bits (stat_changes stats old) < 2 ^ n)
      (length-stat_changes stats old (l ∙ sym k) ∙ l) (from_bits-lt (stat_changes stats old))
