-- ===== src/Skybird/Capture.antt =====
-- What src/screener/skybird/capture.py computes: where in a live playlist a capture starts, and how
-- long a chunk is. Durations are microseconds; ffmpeg and yt-dlp are not modelled.
use stock_aggregator.Prelude.{
  leb, if◌then◌else◌, ℕ, ◌-◌, ◌*◌, ◌/◌, min, String, Bool, false, not, ◌&&◌, ◌||◌, Option, none,
  some,
}
use stock_aggregator.Prelude.Int.{
  ℤ, sub_ℕ, add_ℤ, sub_ℤ, ltb_ℤ, min_ℤ, max_ℤ, floor_ℤ, times_ℤ, pos,
}

pub record Window : Type 0 where
  pub segment_seconds : ℕ
  pub segments : ℕ
  pub ended : Bool

-- `Window()`
abbrev pub no_window : Window
no_window = record { segment_seconds = 0; segments = 0; ended = false }

pub record Probe : Type 0 where
  pub manifest_url : String
  pub video_id : Option String
  pub title : Option String
  pub channel : Option String
  pub is_live : Bool
  pub window : Window

pub record Rewind : Type 0 where
  pub live_start_index : Option ℤ
  pub skipped : ℤ

abbrev pub live_edge_segments : ℕ
live_edge_segments = 3

abbrev pub eq_ℤ : ℤ → ℤ → Bool
eq_ℤ a b = not (ltb_ℤ a b) && not (ltb_ℤ b a)

-- Segments behind the default start.
unfoldable pub back_segments : ℤ → ℕ → ℕ → ℕ → ℤ
back_segments gap seconds segments limit =
    let reach = min (segments - live_edge_segments) (limit / seconds) in
    max_ℤ (min_ℤ (floor_ℤ gap seconds) (pos reach)) (sub_ℕ 1 live_edge_segments)

unfoldable pub rewind : ℤ → Window → ℕ → Rewind
rewind gap window limit =
    let seconds = window.segment_seconds in
    let back = back_segments gap seconds window.segments limit in
    let index = sub_ℤ (pos 0) (add_ℤ (pos live_edge_segments) back) in
    if leb limit 0 || leb seconds 0 || leb window.segments live_edge_segments
    then record { live_start_index = none; skipped = gap }
    else record {
      live_start_index =
          if eq_ℤ index (sub_ℤ (pos 0) (pos live_edge_segments)) then none else some index;
      skipped = sub_ℤ gap (times_ℤ back seconds);
    }

abbrev pub wav_header_bytes : ℕ
wav_header_bytes = 44

abbrev pub bytes_per_second : ℕ
bytes_per_second = 16000 * 2

-- From the number of bytes of the file, in microseconds.
unfoldable pub chunk_seconds_of : ℕ → ℕ
chunk_seconds_of size = (size - wav_header_bytes) * 1000000 / bytes_per_second
