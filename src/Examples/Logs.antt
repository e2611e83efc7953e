-- ===== src/Examples/Logs.antt =====
-- src/bas/log/logger.c: a logger at level 1.
use bas_c.Common.{◌≡◌, refl, [], codes, pos}
use bas_c.Log.Logger.{Logger, logger_info}

abbrev plain_logger : Logger
plain_logger = record {
  level = pos 1;
  level_default = pos 1;
  header = codes "app";
  color_error = codes "<r>";
  color_warn = codes "<y>";
  color_mesg = [];
  color_info = [];
  color_log = [];
  color_debug = [];
  color_trace = [];
  color_reset = codes "<>";
}

logger_info_runs : logger_info plain_logger (codes "x") ≡ []
unfolding logger_info
logger_info_runs = refl
