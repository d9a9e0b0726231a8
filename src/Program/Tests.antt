-- ===== src/Program/Tests.antt =====
-- The program started with no flags, where the port is taken.
use goexpose.Common.{[], String, inl, inr, new, none}
use goexpose.Config.Loading.{Files}
use goexpose.Effect.{Call}
use goexpose.Program.{main}
use goexpose.Program.Starts.{Starts, main-Starts}
use goexpose.Response.Writing.{Codec}
use goexpose.Server.Sample.{authorizer_factories, compile, config, decimal, factories}
use goexpose.Server.Serving
use goexpose.Server.Serving.{Mux, Network}

abbrev files : Files
files = record {
  read_file = λ name. inr [];
  absolute_directory = λ name. inr "/etc/goexpose";
  unmarshal_json = λ body target. inr config;
  yaml_to_json = λ body. inr body;
}

abbrev chdir : String → Call (Unit {0}) (Unit {0})
chdir directory w = (inr tt, w)

abbrev mux : Mux (Unit {0})
mux = record { redirect = λ r. none; find = λ xs r. none }

abbrev codec : Codec
codec = record {
  marshal = λ v. inr [];
  marshal_indent = λ v. inr [];
  compact = λ b. inr [];
  base64 = λ b. b;
}

abbrev network : Network (Unit {0})
network = record {
  listen = λ address handler w. (inl (new "address already in use"), w);
  listen_tls = λ address cert key handler w. (inl (new "no certificate"), w);
}

main-Starts_example :
    Starts files chdir mux
      (λ w. [])
      codec
      5
      compile
      decimal
      (λ s. s)
      factories
      authorizer_factories
      network
      []
      tt
      (main files chdir
        (Serving.run mux
          (λ w. [])
          codec
          5
          compile
          decimal
          (λ s. s)
          factories
          authorizer_factories
          network)
        []
        tt)
main-Starts_example =
    main-Starts files chdir mux (λ w. []) codec 5 compile decimal (λ s. s) factories
      authorizer_factories network [] tt
