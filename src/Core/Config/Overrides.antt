-- ===== src/Core/Config/Overrides.antt =====
-- src/core/config.cpp, `apply_env_overrides`: the settings that environment variables replace.
use Prim.Native.String.{String}
use ironpulse.Prelude.{◌-◌, ◌^◌, List, [], ◌∷◌, ◌++◌, Option, none, some}
use ironpulse.Core.Config.Types.{
  AppConfig, ExportConfig, NotificationsConfig, NotificationChannelConfig,
}
use ironpulse.Core.Config.Text.{env, parse_number_or, parse_bool}

abbrev pub channel_of : String → String → String → String → NotificationChannelConfig
channel_of type url bot_token chat_id = record {
  type = type;
  url = url;
  bot_token = bot_token;
  chat_id = chat_id;
  headers = [];
}

-- `if (auto v = env(name)) ...`
abbrev pub on_env : {C : Type 0} → Option String → (String → C → C) → C → C
on_env none change cfg = cfg
on_env (some v) change cfg = change v cfg

abbrev pub value_or_empty : Option String → String
value_or_empty none = ""
value_or_empty (some v) = v

-- The variables that replace a setting of the program itself.
abbrev pub settings : {D : Type 0} → List (String × (String → AppConfig D → AppConfig D))
settings =
    ("IRONPULSE_HTTP_PORT", λ v c. record c { http_port = parse_number_or 65535 v c.http_port })
    ∷ ("IRONPULSE_WS_PORT", λ v c. record c { ws_port = parse_number_or 65535 v c.ws_port })
    ∷ ("IRONPULSE_LOG_LEVEL", λ v c. record c { log_level = v })
    ∷ ("IRONPULSE_LOG_FILE", λ v c. record c { log_file = v })
    ∷ ("IRONPULSE_WEB_ROOT", λ v c. record c { web_root = v })
    ∷ ("IRONPULSE_DATA_DIR", λ v c. record c { data_dir = v })
    ∷ (
      "IRONPULSE_WORKER_THREADS",
      λ v c. record c { worker_threads = parse_number_or (2 ^ 64 - 1) v c.worker_threads },
    )
    ∷ ("IRONPULSE_PERSISTENCE_ENABLED", λ v c. record c { persistence_enabled = parse_bool v })
    ∷ (
      "IRONPULSE_RETENTION_HOURS",
      λ v c. record c { retention_hours = parse_number_or (2 ^ 32 - 1) v c.retention_hours },
    )
    ∷ ("IRONPULSE_API_TOKEN", λ v c. record c { api_token = v })
    ∷ []

module _ (getenv : String → Option String) where
  unfoldable pub override_notifications : NotificationsConfig → NotificationsConfig
  override_notifications n0 =
      let n1 =
        on_env (env getenv "IRONPULSE_NOTIFY_LANGUAGE") (λ v n. record n { language = v }) n0 in
      let n2 =
        on_env (env getenv "IRONPULSE_PUBLIC_URL") (λ v n. record n { dashboard_url = v }) n1 in
      let n3 =
        on_env (env getenv "IRONPULSE_TELEGRAM_BOT_TOKEN")
          (λ v n. record n {
            channels =
                n.channels
                ++ (channel_of "telegram" "" v
                      (value_or_empty (env getenv "IRONPULSE_TELEGRAM_CHAT_ID"))
                    ∷ []);
          })
          n2 in
      let n4 =
        on_env (env getenv "IRONPULSE_SLACK_WEBHOOK_URL")
          (λ v n. record n { channels = n.channels ++ (channel_of "slack" v "" "" ∷ []) }) n3 in
      on_env (env getenv "IRONPULSE_WEBHOOK_URL")
        (λ v n. record n { channels = n.channels ++ (channel_of "webhook" v "" "" ∷ []) }) n4

  unfoldable pub override_export : ExportConfig → ExportConfig
  override_export e0 =
      let e1 =
        on_env (env getenv "IRONPULSE_EXPORT_ENABLED") (λ v e. record e { enabled = parse_bool v })
          e0 in
      let e2 = on_env (env getenv "IRONPULSE_EXPORT_DIR") (λ v e. record e { directory = v }) e1 in
      let e3 =
        on_env (env getenv "IRONPULSE_EXPORT_MAX_MB")
          (λ v e. record e { max_total_mb = parse_number_or (2 ^ 32 - 1) v e.max_total_mb }) e2 in
      on_env (env getenv "IRONPULSE_EXPORT_SEGMENT_MB")
        (λ v e. record e { segment_max_mb = parse_number_or (2 ^ 32 - 1) v e.segment_max_mb }) e3

  -- The overrides in turn.
  unfoldable pub override_each : {C : Type 0} → List (String × (String → C → C)) → C → C
  override_each [] cfg = cfg
  override_each ((name, change) ∷ more) cfg =
      override_each more (on_env (env getenv name) change cfg)

  unfoldable pub apply_env_overrides : {D : Type 0} → AppConfig D → AppConfig D
  unfolding override_notifications override_export override_each
  apply_env_overrides cfg =
      let c = override_each settings cfg in
      record c {
        notifications = override_notifications c.notifications;
        export_config = override_export c.export_config;
      }
