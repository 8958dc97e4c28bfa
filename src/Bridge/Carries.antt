-- ===== src/Bridge/Carries.antt =====
-- The main loop carries every byte over, in order, and never writes more than a port takes.
use mathlib.Core.Option
use kmm_yocto.Bridge.{Bridge}
