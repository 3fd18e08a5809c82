-- ===== src/Metrics.antt =====
-- src/metrics.c: the counters, and their text for Prometheus.
use Prim.Native.String.{String}
use multi_client_chat_server.Prelude.{
  ◌>>=◌, ℕ, ℤ, pos, negsuc, ◌+ℤ◌, sub_ℕ, suc, Option, none, some, List, [], ◌∷◌, ◌++◌, Text, codes,
  leb, length, if◌then◌else◌,
}
use multi_client_chat_server.Protocol.Format.{snprintf, decimal_int}

-- `metrics_t`
pub record Metrics : Type 0 where
  pub total_connections : ℤ
  pub active_connections : ℤ
  pub total_messages : ℤ
  pub total_pm : ℤ
  pub total_rooms_created : ℤ
  pub total_logins : ℤ
  pub total_failed_logins : ℤ
  pub total_reconnects : ℤ
  pub total_kicks : ℤ
  pub total_bans : ℤ
  pub uptime_start : ℤ

pub metrics_init : ℤ → Metrics
metrics_init now = record {
  total_connections = pos 0;
  active_connections = pos 0;
  total_messages = pos 0;
  total_pm = pos 0;
  total_rooms_created = pos 0;
  total_logins = pos 0;
  total_failed_logins = pos 0;
  total_reconnects = pos 0;
  total_kicks = pos 0;
  total_bans = pos 0;
  uptime_start = now;
}

-- The increments and the decrement.
pub data Count : Type 0 where
  connections less_connections messages private_messages rooms logins failed_logins reconnects kicks
        bans :
      Count

abbrev one_more : ℤ → ℤ
one_more n = n +ℤ pos 1

pub metrics_step : Count → Metrics → Metrics
metrics_step connections g = record g {
  total_connections = one_more g.total_connections;
  active_connections = one_more g.active_connections;
}
metrics_step less_connections g = record g { active_connections = g.active_connections +ℤ negsuc 0 }
metrics_step messages g = record g { total_messages = one_more g.total_messages }
metrics_step private_messages g = record g { total_pm = one_more g.total_pm }
metrics_step rooms g = record g { total_rooms_created = one_more g.total_rooms_created }
metrics_step logins g = record g { total_logins = one_more g.total_logins }
metrics_step failed_logins g = record g { total_failed_logins = one_more g.total_failed_logins }
metrics_step reconnects g = record g { total_reconnects = one_more g.total_reconnects }
metrics_step kicks g = record g { total_kicks = one_more g.total_kicks }
metrics_step bans g = record g { total_bans = one_more g.total_bans }

-- The three lines of one metric.
sample : String → String → String → ℤ → List Text
sample name help kind value =
    (codes "# HELP " ++ (codes name ++ (codes " " ++ codes help)))
    ∷ (codes "# TYPE " ++ (codes name ++ (codes " " ++ codes kind)))
    ∷ (codes name ++ (codes " " ++ decimal_int value))
    ∷ []

negated : ℤ → ℤ
negated (pos n) = sub_ℕ 0 n
negated (negsuc n) = pos (suc n)

-- The lines, in their order.
pub metric_lines : ℤ → Metrics → List Text
unfolding sample negated
metric_lines now g =
    sample "chat_connections_total" "Total connections accepted" "counter" g.total_connections
    ++ (sample "chat_active_connections" "Currently active connections" "gauge" g.active_connections
        ++ (sample "chat_messages_total" "Total messages sent" "counter" g.total_messages
            ++ (sample "chat_pm_total" "Total private messages sent" "counter" g.total_pm
                ++ (sample "chat_rooms_total" "Total rooms created" "counter" g.total_rooms_created
                    ++ (sample "chat_logins_total" "Total logins" "counter" g.total_logins
                        ++ (sample "chat_failed_logins_total" "Total failed logins" "counter"
                              g.total_failed_logins
                            ++ sample "chat_uptime_seconds" "Server uptime" "gauge"
                                (now +ℤ negated g.uptime_start)))))))

-- `off += snprintf(out + off, out_size - off, ...)` for each line: no result where `off` has passed the size.
pub print_lines : ℕ → Text → List Text → Option Text
print_lines out_size printed [] = some printed
print_lines out_size printed (l ∷ ls) =
    let rest = print_lines out_size (printed ++ (l ++ codes "\n")) ls in
    if leb (length printed) out_size then rest else none

pub metrics_format_prometheus : ℤ → Metrics → ℕ → Option Text
unfolding metric_lines print_lines
metrics_format_prometheus now g out_size = do
  printed ← print_lines out_size [] (metric_lines now g)
  some (snprintf out_size printed)
