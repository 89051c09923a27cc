-- ===== src/Tests/Auth.antt =====
-- AuthContext.tsx, the guard and the sign-in forms at concrete inputs.
use tidybridge.Base.{str_eq, js, true, false, ◌≡◌, refl, Option, none, some, starts_with}
use tidybridge.Client.Errors.{Result}
use tidybridge.Client.Request.{HttpRequest, Response, Payload}
use tidybridge.Auth.{App, needs_profile, init, login_with_password, delete_account}
use tidybridge.Auth.Guard.{to_profile, protected_route, return_path}
use tidybridge.Auth.Guard.Laws.{return_path_local}
use tidybridge.Tests.Samples.{api, answer, signed_in, someone}

-- A server that knows one user.
abbrev friendly : Unit {0} → HttpRequest → Option Response × Unit {0}
friendly s r = (answer (Payload.user someone), s)

abbrev opened : App (Unit {0})
opened = init signed_in

abbrev tried : Result (Unit {0}) × App (Unit {0})
tried = login_with_password api friendly (js "ana@example.com") (js "secret") opened

abbrev gone : Result (Unit {0}) × App (Unit {0})
gone = delete_account api friendly opened

abbrev nameless : App (Unit {0})
nameless = record {
  session = signed_in;
  user = some (record someone { first_name = none });
  loading = false;
}

sent_to_profile : protected_route nameless (js "/records") ≡ to_profile
unfolding protected_route needs_profile str_eq js
sent_to_profile = refl

return_path_local_example :
    (starts_with (return_path (some (js "//evil.example"))) (js "/") ≡ true)
    × (starts_with (return_path (some (js "//evil.example"))) (js "//") ≡ false)
return_path_local_example = return_path_local (some (js "//evil.example"))
