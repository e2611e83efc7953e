-- ===== src/Log/Logger/Levels.antt =====
-- What the calls of a logger write, and how the level changes it.
use bas_c.Common.{
  ◌≡◌, refl, Bool, true, false, List, [], ◌∷◌, ◌++◌, append_assoc, append-nil, Bytes, codes,
  if◌then◌else◌,
}
use bas_c.Log.Logger.{
  Logger, Write, err, out, reaches, framed, logger_error, logger_warn, logger_mesg, logger_info,
  logger_log, logger_debug, pieces, logger_error_fmt, logger_warn_fmt, logger_mesg_fmt,
  logger_info_fmt, logger_log_fmt, logger_debug_fmt,
}

-- The bytes that the writes put on a stream.
abbrev pub on : Bool → List Write → Bytes
on stream [] = []
on stream (w ∷ ws) =
    if w.to_stderr
    then (if stream then w.text else []) ++ on stream ws
    else (if stream then [] else w.text) ++ on stream ws

-- The same bytes on both streams.
abbrev pub Same : List Write → List Write → Type 0
Same ws vs = (on true ws ≡ on true vs) × (on false ws ≡ on false vs)

err-pieces :
    (l : Logger) (color name m : Bytes)
    → Same (pieces err l color name m) (err (framed l color name m) ∷ [])
err-pieces l color name m = (simp (append_assoc, append-nil) refl, refl)

out-pieces :
    (l : Logger) (color name m : Bytes)
    → Same (pieces out l color name m) (out (framed l color name m) ∷ [])
out-pieces l color name m = (refl, simp (append_assoc, append-nil) refl)

Same-if :
    (b : Bool) (ws vs : List Write)
    → Same ws vs
    → Same (if b then ws else []) (if b then vs else [])
Same-if true ws vs s = s
Same-if false ws vs s = (refl, refl)

-- At every level, a call with a format writes the bytes that the call with the formatted message
-- writes, to the same stream.
pub fmt-Same :
    (l : Logger) (m : Bytes)
    → Same (logger_error_fmt l m) (logger_error l m)
      × Same (logger_warn_fmt l m) (logger_warn l m)
      × Same (logger_mesg_fmt l m) (logger_mesg l m)
      × Same (logger_info_fmt l m) (logger_info l m)
      × Same (logger_log_fmt l m) (logger_log l m)
      × Same (logger_debug_fmt l m) (logger_debug l m)
unfolding logger_error_fmt logger_error logger_warn_fmt logger_warn logger_mesg_fmt logger_mesg
    logger_info_fmt logger_info logger_log_fmt logger_log logger_debug_fmt logger_debug
fmt-Same l m = (
  err-pieces l l.color_error (codes " ERROR: ") m,
  Same-if (reaches l.level 0) _ _ (err-pieces l l.color_warn (codes " WARN: ") m),
  Same-if (reaches l.level 1) _ _ (out-pieces l l.color_mesg (codes " ") m),
  Same-if (reaches l.level 2) _ _ (out-pieces l l.color_info (codes " INFO: ") m),
  Same-if (reaches l.level 3) _ _ (out-pieces l l.color_log (codes " LOG: ") m),
  Same-if (reaches l.level 4) _ _ (out-pieces l l.color_debug (codes " DEBUG: ") m),
)
