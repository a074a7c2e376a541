-- ===== src/Examples/Settings.antt =====
-- packages/chassis/config: a service that reads three variables, two of them wrong.

use cofound.Prelude.{
  ◌≡◌, refl, inl, inr, String, Option, none, some, List, [], ◌∷◌, In, ◌=s◌, contains, trim_space,
  trim_left, trim_right, is_space, if◌then◌else◌,
}
use cofound.Errs.Code.{is_digit}
use cofound.Config.Parse.{
  pos, atoi, parse_bytes, signed, magnitude, digits_from, times, wrapped, to_upper, split_unit,
  trim_suffix, trim_end,
}
use cofound.Config.Loader.{
  Host, text, Problem, new_loader, value_of, problem, mark_secret, raw, record_value, read_string,
  required_string, judged_as, settle_as, read_as, judge_int, read_int,
}
use cofound.Config.Reads.{
  Read, marks, string_of, int_of, required, load, resolved_attrs, apply, render_all, fingerprint,
}
use cofound.Config.Collects.{all_problems, load-all_problems}
use cofound.Config.Secrets.{IsHidden, marked-IsHidden}

abbrev variables : String → Option String
variables k = if k =s "PORT" then some "99x" else if k =s "TOKEN" then some "hunter2" else none

abbrev host : Host
host = record {
  get = variables;
  show_int = λ n. "n";
  parse_duration = λ s. none;
  show_duration = λ n. "d";
  parse_level = λ s. none;
  show_level = λ n. "info";
  parse_url = λ s. none;
  is_prefix = λ s. s =s "10.0.0.0/8";
  digest = λ s. "00ff";
}

abbrev reads : List Read
reads = int_of "PORT" (pos 80) (pos 1) (pos 65535) ∷ required "DATABASE" ∷ string_of "TOKEN" "" ∷ []

load-all_problems_example : (load host reads new_loader).problems ≡ all_problems host reads
load-all_problems_example = load-all_problems host reads

abbrev bad_port : Problem
bad_port = record { key = "PORT"; expect = "expect an integer" }

bad_port_found : In bad_port (load host reads new_loader).problems
unfolding load apply new_loader problem mark_secret value_of raw record_value read_string
    required_string read_as settle_as judged_as read_int judge_int atoi signed magnitude digits_from
    is_digit trim_space trim_left trim_right contains
bad_port_found = inl refl

token_shown :
    In
      ("TOKEN", text "set (sha256:00ff)")
      (resolved_attrs host (load host (marks "TOKEN" ∷ reads) new_loader))
unfolding load apply new_loader problem mark_secret value_of raw record_value read_string
    required_string read_as settle_as judged_as read_int judge_int atoi signed magnitude digits_from
    is_digit trim_space trim_left trim_right contains resolved_attrs render_all fingerprint
token_shown = inr (inr (inl refl))

marked-IsHidden_example : IsHidden host (text "set (sha256:00ff)")
marked-IsHidden_example = marked-IsHidden host "TOKEN" reads (text "set (sha256:00ff)") token_shown

-- A product that does not fit 64 bits is taken for a small size.
bytes_overflow : parse_bytes "17179869185GB" ≡ some (pos 1073741824)
unfolding parse_bytes signed magnitude digits_from times wrapped to_upper split_unit trim_suffix
    trim_end trim_space trim_left trim_right is_digit is_space
bytes_overflow = refl

-- A key that is marked after it was read shows its value.
marked_late :
    resolved_attrs host (load host (string_of "TOKEN" "" ∷ marks "TOKEN" ∷ []) new_loader)
    ≡ ("TOKEN", text "hunter2") ∷ []
unfolding load apply new_loader problem mark_secret value_of raw record_value read_string
    required_string read_as settle_as judged_as read_int judge_int atoi signed magnitude digits_from
    is_digit trim_space trim_left trim_right contains resolved_attrs render_all fingerprint
marked_late = refl
