-- ===== src/Redaction/Builtin.antt =====
-- crates/kernel/src/redact.rs: the built-in patterns and the construction of a redactor. What
-- compiles a pattern is a parameter.
use grist_agent.Prelude.{ℕ, List, [], ◌∷◌, ◌++◌, map}
use grist_agent.Prelude.Text.{Text, codes}
use grist_agent.Redaction.{Pattern, Redactor}
use Prim.Native.String.{String}

module _ {Regex : Type 0} (compile : Text → Regex) where
  abbrev built_in : String → String → ℕ → Pattern Regex
  built_in kind re group = record { kind = codes kind; re = compile (codes re); group = group }

  -- `builtin_patterns`
  unfoldable pub builtin_patterns : List (Pattern Regex)
  builtin_patterns =
      built_in "pem"
        "-----BEGIN [A-Z0-9 ]*PRIVATE KEY-----[\\s\\S]*?-----END [A-Z0-9 ]*PRIVATE KEY-----" 0
      ∷ built_in "jwt" "\\beyJ[A-Za-z0-9_-]{8,}\\.[A-Za-z0-9_-]{8,}\\.[A-Za-z0-9_-]{8,}\\b" 0
      ∷ built_in "bearer" "(?i)\\bbearer\\s+([A-Za-z0-9\\-._~+/]{16,}=*)" 1
      ∷ built_in "api_key" "\\bsk-(?:[A-Za-z0-9_-]{2,}-)?[A-Za-z0-9_-]{16,}\\b" 0
      ∷ built_in "api_key" "\\bgh[pousr]_[A-Za-z0-9]{36,}\\b" 0
      ∷ built_in "api_key" "\\bxox[baprs]-[A-Za-z0-9-]{10,}\\b" 0
      ∷ built_in "api_key" "\\bAIza[0-9A-Za-z_-]{35}\\b" 0
      ∷ built_in "aws_key" "\\b(?:AKIA|ASIA)[0-9A-Z]{16}\\b" 0
      ∷ built_in "aws_key" "(?i)\\baws_secret_access_key\\b\\s*[:=]\\s*[\"']?([A-Za-z0-9/+=]{40})" 1
      ∷ built_in "basic_auth" "(?i)\\bbasic\\s+([A-Za-z0-9+/]{16,}={0,2})\\b" 1
      ∷ built_in "url_credential" "://([^/\\s:@]+):([^/\\s@]+)@" 2
      ∷ built_in "env_secret"
          "(?i)\\b([A-Z0-9_]*(?:API_KEY|SECRET|TOKEN|PASSWORD|PASSWD|CREDENTIALS?)[A-Z0-9_]*)\\s*=\\s*[\"']?([^\\s\"']{8,})"
          2
      ∷ []

  -- `Redactor::new`
  unfoldable pub new_redactor : Redactor Regex
  unfolding builtin_patterns
  new_redactor = record { known = []; patterns = builtin_patterns; short = [] }

  -- `Redactor::with_extra_patterns`
  unfoldable pub with_extra_patterns : List Regex → Redactor Regex
  unfolding new_redactor
  with_extra_patterns patterns = record new_redactor {
    patterns =
        new_redactor.patterns
        ++ map (λ re. record { kind = codes "extra"; re = re; group = 0 }) patterns;
  }
