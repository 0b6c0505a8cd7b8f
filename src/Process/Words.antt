-- ===== src/Process/Words.antt =====
-- The keyword tables of products/process/api/analyst_routing.py.
use finchat.Base.{String, List, [], ◌∷◌}

abbrev pub platform_words : List String
platform_words =
    "adr" ∷ "architecture" ∷ "how does finchat" ∷ "how is finchat" ∷ "why did we" ∷ "why was"
    ∷ "runbook" ∷ "deploy" ∷ "terraform" ∷ "module" ∷ "repo" ∷ "gateway" ∷ "registry" ∷ "pipeline"
    ∷ "ci " ∷ "cicd" ∷ "eval harness" ∷ "increment" ∷ "reference implementation" ∷ "decision record"
    ∷ "codebase" ∷ "implemented" ∷ "supported" ∷ "what does finchat" ∷ "for finchat" ∷ "in finchat"
    ∷ "of finchat" ∷ "finchat's" ∷ "auth pattern" ∷ "authentication" ∷ "sign-in" ∷ "sign in"
    ∷ "oauth" ∷ "token budget" ∷ "budget" ∷ "rate limit" ∷ "quota" ∷ "service account" ∷ "identity"
    ∷ "persona" ∷ "permission" ∷ "iam" ∷ "scope" ∷ "agent" ∷ "canary" ∷ "drift" ∷ "pinning"
    ∷ "model version" ∷ "bigtable" ∷ "spanner" ∷ "firestore" ∷ "cloud run" ∷ "bigquery omni"
    ∷ "schema of" ∷ "how do you" ∷ "how do we" ∷ "does finchat" ∷ "can finchat" ∷ []

abbrev pub kb_words : List String
kb_words =
    "fee" ∷ "polic" ∷ "hour" ∷ "branch" ∷ "atm" ∷ " open" ∷ "close" ∷ "term" ∷ "condition"
    ∷ "privacy" ∷ "eligib" ∷ "require" ∷ "interest" ∷ "rate" ∷ "offer" ∷ "document" ∷ "contact"
    ∷ "support" ∷ "location" ∷ "how do i" ∷ "what is a" ∷ "limit" ∷ "disclosure" ∷ []

abbrev pub an_words : List String
an_words =
    "how many" ∷ "count" ∷ "number of" ∷ "total" ∷ "sum" ∷ "average" ∷ "avg" ∷ "median" ∷ "top "
    ∷ " most " ∷ "least" ∷ "list " ∷ "per segment" ∷ "by segment" ∷ "per customer" ∷ "distribution"
    ∷ "breakdown" ∷ "customers with" ∷ "which customer" ∷ "trend" ∷ "over time" ∷ "compare"
    ∷ "percentage" ∷ "ratio" ∷ "largest" ∷ "smallest" ∷ "highest" ∷ "lowest" ∷ "how much" ∷ []

abbrev pub sem_words : List String
sem_words =
    "what does" ∷ "what is a " ∷ "definition" ∷ "defined" ∷ "define" ∷ "mean" ∷ "how is "
    ∷ "calculated" ∷ "computed" ∷ "what columns" ∷ "what fields" ∷ "schema" ∷ "join" ∷ "related to"
    ∷ "what's in" ∷ "what is in" ∷ "contain" ∷ "which view" ∷ "which table" ∷ "data model"
    ∷ "column mean" ∷ "bian" ∷ "service domain" ∷ "action term" ∷ "industry standard" ∷ []
