-- ===== src/Queue/Draining.antt =====
-- `processDue` leaves no due batch behind in a conversation that runs nothing.
use plastic_wan.Queue.Tables.{State}
use plastic_wan.Queue.Sound.{Sound}
