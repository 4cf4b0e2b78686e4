-- ===== src/Browser/Census.antt =====
-- The processes of a platform, counted.
use proxy_in_a_box.Prelude.{ℕ, ◌+◌, ◌-◌, ◌≡◌, List, Text, ◌==◌, if◌then◌else◌, Duration}
use proxy_in_a_box.Browser.{Platform}

-- What has become of the processes: how many run, and how many were started while another ran.
pub record Census : Type 0 where
  pub processes : ℕ
  pub overlaps : ℕ

abbrev pub started : Census → Census
started c = record {
  processes = c.processes + 1;
  overlaps = if c.processes == 0 then c.overlaps else c.overlaps + 1;
}

abbrev pub ended : Census → Census
ended c = record c { processes = c.processes - 1 }

abbrev pub census_of : ℕ → ℕ → Census
census_of processes overlaps = record { processes = processes; overlaps = overlaps }

-- A census kept by the world: a process that starts is added, one that is ended is taken off, and
-- nothing else changes it.
pub record Runs (P : Platform) (running : P.World → Census) : Type 0 where
  pub running-now : (w : P.World) → running (P.now w).0 ≡ running w
  pub running-sleep : (d : Duration) (w : P.World) → running (P.sleep d w) ≡ running w
  pub running-look_path : (u : Text) (w : P.World) → running (P.look_path u w).0 ≡ running w
  pub running-allocate_port : (w : P.World) → running (P.allocate_port w).0 ≡ running w
  pub running-spawn :
      (u : Text) (args : List Text) (w : P.World)
      → running (P.spawn u args w).0
        ≡ (if (P.spawn u args w).1 then running w else started (running w))
  pub running-resolve_url : (port : ℕ) (w : P.World) → running (P.resolve_url port w).0 ≡ running w
  pub running-connect_socket :
      (u : Text) (w : P.World) → running (P.connect_socket u w).0 ≡ running w
  pub running-connect_browser : (w : P.World) → running (P.connect_browser w).0 ≡ running w
  pub running-close_browser : (w : P.World) → running (P.close_browser w) ≡ running w
  pub running-close_socket : (w : P.World) → running (P.close_socket w) ≡ running w
  pub running-end_process : (w : P.World) → running (P.end_process w) ≡ ended (running w)
  pub running-create_page : (w : P.World) → running (P.create_page w).0 ≡ running w
  pub running-navigate_page :
      (p : P.Page) (u : Text) (d : Duration) (w : P.World)
      → running (P.navigate_page p u d w).0 ≡ running w
  pub running-close_target : (p : P.Page) (w : P.World) → running (P.close_target p w).0 ≡ running w
  pub running-eval_page :
      (p : P.Page) (u : Text) (d : Duration) (w : P.World)
      → running (P.eval_page p u d w).0 ≡ running w
