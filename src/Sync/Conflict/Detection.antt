-- ===== src/Sync/Conflict/Detection.antt =====
-- crates/yoop-core/src/sync/conflict.rs: when a conflict is seen, and which side wins.
use yoop.Base.{
  ℕ, ◌+◌, ◌*◌, ◌<◌, ◌≤◌, ◌≡◌, ◌≢◌, ◌⊎◌, inl, inr, ℕ_discrete, dec_lt, none, some, arith,
}
use yoop.Sync.Model.{SystemTime, nanos_per_sec}
use yoop.Sync.Conflict.{
  Conflict, ConflictDetector, accept_remote, keep_local, is_ambiguous, detect,
  resolve_last_write_wins, ConflictResolution,
}

-- Both times lie within the window: neither is as much as `nanos` later than the other.
abbrev pub Within : ℕ → SystemTime → SystemTime → Type 0
Within nanos s t = (s < t + nanos) × (t < s + nanos)

-- The same conflict as the other device sees it.
abbrev pub swapped : Conflict → Conflict
swapped c = record {
  path = c.path;
  local_mtime = c.remote_mtime;
  local_hash = c.remote_hash;
  remote_mtime = c.local_mtime;
  remote_hash = c.local_hash;
  kind = c.kind;
}

-- Either a conflict is seen, the contents differ and the times lie strictly within the window, and
-- it holds the values that it was detected from; or none is seen, and the contents are the same or
-- one time is at least the window later than the other.
pub detect_cases :
    (d : ConflictDetector) (c : Conflict)
    → let found = detect d c.path c.local_mtime c.local_hash c.remote_mtime c.remote_hash c.kind in
      let nanos = d.ambiguity_window_secs * nanos_per_sec in
      ((found ≡ some c)
        × (c.local_hash ≢ c.remote_hash)
        × Within nanos c.local_mtime c.remote_mtime)
      ⊎ ((found ≡ none)
          × ((c.local_hash ≡ c.remote_hash)
              ⊎ ((c.local_mtime + nanos ≤ c.remote_mtime)
                  ⊎ (c.remote_mtime + nanos ≤ c.local_mtime))))
unfolding detect
detect_cases d c = elim (ℕ_discrete c.local_hash c.remote_hash) [
  | yes same ↦ inr (ground arith, inl same)
  | no differ ↦
      elim (dec_lt c.local_mtime (c.remote_mtime + d.ambiguity_window_secs * nanos_per_sec)) [
        | yes p ↦
            elim (dec_lt c.remote_mtime (c.local_mtime + d.ambiguity_window_secs * nanos_per_sec)) [
              | yes q ↦ inl (ground arith, differ, (p, q))
              | no q ↦ inr (ground arith, inr (inl (omega arith)))
            ]
        | no p ↦ inr (ground arith, inr (inr (omega arith)))
      ]
]

-- Both devices see the same conflicts.
pub is_ambiguous-swapped : (c : Conflict) (w : ℕ) → is_ambiguous (swapped c) w ≡ is_ambiguous c w
unfolding is_ambiguous
is_ambiguous-swapped c w = ground arith

abbrev pub opposite : ConflictResolution → ConflictResolution
opposite accept_remote = keep_local
opposite resolution = accept_remote

-- When the times differ, the two devices let the same version win: one keeps its own exactly if the
-- other accepts it.
pub last_write_wins_agrees :
    (c : Conflict)
    → c.local_mtime ≢ c.remote_mtime
    → resolve_last_write_wins (swapped c) ≡ opposite (resolve_last_write_wins c)
unfolding resolve_last_write_wins
last_write_wins_agrees c h = ground (arith, h)
