-- ===== src/Workers/Outcomes.antt =====
-- How the check of a candidate ends: what is counted, and when the pool gains the candidate.
use proxy_in_a_box.Store.{Store}
