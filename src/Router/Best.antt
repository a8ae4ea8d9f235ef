-- ===== src/Router/Best.antt =====
-- The candidate with the best effective latency has the whole resolution as its weight.
use sturnus.F64.{F64}
use sturnus.Tracker.{Tracker}
