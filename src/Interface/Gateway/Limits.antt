-- ===== src/Interface/Gateway/Limits.antt =====
-- The answer to GET /v1/trades.
use bancod.Prelude.{ℕ, ◌<◌, sym, ap, ◌∙◌, ltb, leb, ◌==◌, ◌&&◌, if◌then◌else◌, pos_part}
use bancod.Interface.Json.{Json}
use bancod.Interface.Gateway.{Route, Response}
