-- ===== src/Delta/Dry.antt =====
-- Dry runs of applyDeltaPatch: `pResuming` is NULL.
use ravens.Delta.Patch.{Patch}
use ravens.Device.{Device}
use ravens.Platform.{Platform}
