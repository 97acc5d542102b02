-- ===== src/Autostart/Forgets.antt =====
-- A shutdown of the host that fails.
use apollo_controller.Autostart.{Container}
