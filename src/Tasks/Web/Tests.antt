-- ===== src/Tasks/Web/Tests.antt =====
-- The http task at a concrete server.
use goexpose.Common.{[], String, false, inr, none, ok, refl, some, true, ◌∷◌, ◌≡◌}
use goexpose.Config.{EndpointConfig}
use goexpose.Dict.{Dict, lookup}
use goexpose.Formats.{FormatFunc, format_text, verify_format}
use goexpose.Request.{Request}
use goexpose.Server.{Site, run_task}
use goexpose.Server.Posted.{run_task-http}
use goexpose.Tasks.{task}
use goexpose.Tasks.Item.{blank, run_item}
use goexpose.Tasks.Single.{single_index}
use goexpose.Tasks.Web
use goexpose.Tasks.Web.{Body, Client, HttpConfig, HttpUrl, do_request, url_steps}
use goexpose.Tasks.Web.Fetches.{Fetches, http_url-Fetches}
use goexpose.Text.{join, split, trim_space}
use goexpose.Utils.{Interpolate}
use goexpose.Value.{null, pos}

abbrev plain : Interpolate
plain template vars = inr template

abbrev same : String → String
same s = s

abbrev formats : Dict FormatFunc
formats = ("text", format_text) ∷ []

abbrev posted : Request
posted = record {
  method = "POST";
  path = "/";
  header = λ name. "application/json";
  query = λ name. "";
  vars = [];
  body = some ("payload", none);
}

-- A server that answers 201 with the body that it is sent.
abbrev echo : Client (Unit {0}) (String × String) String
echo = record {
  new_request = λ method url. inr (method, url);
  send = λ req w. (inr "nothing", w);
  send_body = λ req body w. (inr body.0, ("", none), w);
  status_code = λ answer. 201;
  headers = λ answer. null;
  read_all = λ answer w. (inr answer, w);
}

abbrev address : HttpUrl
address = record {
  url = " http://other ";
  method = "";
  post_body = true;
  format = "";
  return_headers = true;
}

abbrev checked_address : HttpUrl
checked_address = record address { url = "http://other"; format = "text" }

abbrev config : HttpConfig
config = record {
  urls = address ∷ address ∷ [];
  single_result = some (pos 1);
  single_result_index = pos 0;
}

abbrev checked_config : HttpConfig
checked_config = record {
  urls = checked_address ∷ checked_address ∷ [];
  single_result = some (pos 1);
  single_result_index = pos 1;
}

validates_address : Web.validate_url formats address ≡ ok checked_address
unfolding Web.validate_url verify_format split join trim_space
validates_address = refl

validates_config : Web.validate formats config ≡ ok checked_config
unfolding Web.validate Web.validate_urls Web.validate_url verify_format split join trim_space
    single_index
validates_config = refl

texts : lookup "text" formats ≡ some format_text
unfolding lookup
texts = refl

-- The first address that posts the body gets all of it.
sent :
    do_request echo checked_address ("POST", "http://other") (some ("payload", none), tt)
    ≡ (inr "payload", (some ("", none), tt))
unfolding do_request
sent = refl

http_url-Fetches_example :
    Fetches formats plain same echo posted [] checked_address
      (some ("payload", none))
      tt
      (run_item
        (url_steps formats plain same echo posted [] checked_address)
        blank
        (some ("payload", none), tt)).0
http_url-Fetches_example =
    http_url-Fetches formats plain same echo posted [] checked_address address
      (some ("payload", none)) tt texts validates_address

abbrev site : Site (Unit {0})
site = record {
  authorizers = [];
  reload_env = false;
  pretty_json = false;
  env = [];
  environ = λ w. [];
}

abbrev endpoint : EndpointConfig
endpoint = record {
  authorizers = [];
  path = "/";
  methods = [];
  type = "";
  query_params = none;
  raw_response = false;
}

run_task-http_example :
    run_task site (task (Web.run formats plain same echo checked_config)) endpoint posted tt
    ≡ run_task site
        (task (Web.run formats plain same echo checked_config))
        endpoint
        (record posted { header = same; body = some ("other", none) })
        tt
run_task-http_example =
    run_task-http formats plain same echo site endpoint checked_config posted tt same "payload"
      "other" refl
