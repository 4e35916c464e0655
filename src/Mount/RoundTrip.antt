-- ===== src/Mount/RoundTrip.antt =====
-- The names that a listing of the mounted drive shows lead a look-up to the nodes that they stand for.
use ps2_driveforge.Device.{Device}
use ps2_driveforge.Session.State.{Session}
