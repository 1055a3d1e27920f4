-- ===== src/Lib.antt =====
-- vstutils: a model of the core of the framework, with the theorems that make it correct.
--
-- The parts that are modelled, and how they meet. A client sends several API calls in one bulk request
-- (vstutils/api/endpoint.py), which runs them one after another through Django's handler, in a transaction where
-- it may stop, and keeps the messages that they leave in the notificator (vstutils/models/cent_notify.py) until it
-- is over. A call reaches a view: its conditional headers are checked (vstutils/api/base.py), its action runs
-- (vstutils/api/actions.py), and a nested view adds to, or takes from, the objects of a parent
-- (vstutils/api/decorators.py), with the filters (vstutils/api/filters.py) and fields (vstutils/api/fields.py) that
-- it names. The views of users change accounts, passwords and second factors (vstutils/api/auth.py), those of web
-- push the subscriptions of devices (vstutils/webpush). Other views read lists of dicts as if they were tables
-- (vstutils/models/custom_model.py, vstutils/tools.py), or the rows below a row (vstutils/models/queryset.py).
-- Cached values and locks live in the cache server (vstutils/drivers/cache.py; KVExchanger, Lock and their
-- decorators in vstutils/utils.py); a lock lets one scheduler of many run the tasks
-- (vstutils/celery_beat_scheduler.py). The OAuth server (vstutils/oauth2) gives out the tokens by which requests are
-- authenticated, over Django's sessions and cache.
--
-- Files, by the code that they model:
--   Base           shared names: tests, lists, equality as an interface, dicts as association lists in
--                  insertion order (Dict), integers, texts as lists of code points with Python's
--                  operations on them
--   Cache          vstutils/drivers/cache.py, TarantoolCache: get_backend_timeout, _build_tuple, add, get, set,
--                  touch, delete, has_key, over a space with its laws (Cache.Space); how long a value is
--                  read (Cache.Times), what a reader sees (Cache.View)
--   Lock           vstutils/utils.py, KVExchanger (Lock.Exchange), Lock (Lock.Acquire), model_lock_decorator
--                  (Lock.Decorator), over a shared cache with its laws (Lock.Shared); tasks that race for
--                  a lock, as a step relation (Lock.Race)
--   Bulk           vstutils/api/endpoint.py: paths (Paths), JSON values (Value), template fields (Template), an
--                  operation (Operation), the handlers post and put (Endpoint); the data of a request that are a text
--                  (Data), the request as one transaction (Atomic), its results one by one (Progress)
--   CustomModel    vstutils/tools.py, multikeysort (Sorting); vstutils/models/custom_model.py: conditions (Check),
--                  Query and the iteration over a ListModel (Select)
--   Notify         vstutils/models/cent_notify.py, Notificator: the batch of a queue (Merging), what becomes of it
--                  (Messages), signals (Signals)
--   Oauth          vstutils/oauth2/client.py (Client), vstutils/oauth2/authorization_code.py (Code),
--                  vstutils/oauth2/authorization_server.py and requests.py (Session)
--   Fields         vstutils/api/fields.py: CrontabField (Crontab): the check of a value (Defs), the numbers that
--                  it allows (Numbers), what it accepts (Grammar), the normal form (Round); NamedBinaryFileInJsonField (Files): the validation of a file
--                  (Defs), what is taken for a link (Links), what is accepted (Bounds); DynamicJsonTypeField (Dynamic): the type by another field (Defs),
--                  what is shown of what was sent (Round)
--   Filters        vstutils/api/filters.py: the conditions of the filters (Defs), what "__not" makes of them (Negated)
--   Models         vstutils/models/queryset.py: the nested sets of BQuerySet (Deep): the search (Defs), what nesting
--                  means (Reach), the rounds of the search (Ends) and what it finds (Sets, Answers)
--   Scheduler      vstutils/celery_beat_scheduler.py: the ticks (Defs, Ticks) and the tasks that the first one discards
--                  (Discard)
--   Users          vstutils/api/permissions.py (Permissions); vstutils/api/auth.py: UserSerializer,
--                  CreateUserSerializer and UserViewSet (Views), what they may change (Safety, Rows),
--                  change_password (Password), the second factor with TwoFactor of vstutils/api/models.py (TwoFactor);
--                  vstutils/auth.py: AuthPluginsBackend (Backends), the cached users (Cached)
--   Api            vstutils/api/base.py: the tags of EtagMixin (Etag): their values and checks (Defs), a tag that comes
--                  back (Conditional); vstutils/api/actions.py (Action): the declaration of Action and SimpleAction
--                  (Defs), the method that SimpleAction makes (Simple), what it leaves behind (Effects);
--                  vstutils/api/decorators.py (Nested): the names of nested views (Names), their operations (Defs),
--                  which values name an object (Naming), what creating (Links, Append) and removing (Destroy) through them does
--   Webpush        vstutils/webpush/utils.py, api.py and models.py: the tables and what requests do to them
--                  (Tables), both ways to store settings (Settings), the unique keys (Moved, Valid); vstutils/webpush/base.py: sending
--                  (Send)
--   Middleware     vstutils/middleware.py: BaseMiddleware, AsyncBaseMiddleware, LangMiddleware,
--                  FrontendChangesNotifications (Changes), the Server-Timing header (Timing)
--   Utils          vstutils/utils.py: encode and decode (Cipher), raise_context and assertRaises (Raises),
--                  ObjectHandlers and ModelHandlers (Handlers), URLHandlers (Urls), check_request_etag and add_in_vary
--                  (Headers), Executor, SecurePickling (Pickle)
--
-- How the code is carried over. State is passed along and given back; an exception is `none`, or a constructor
-- of the result where the code tells exceptions apart. A Python dict is an association list, a str a list of
-- code points. Numbers are natural numbers where the code's are not negative; times are in whole seconds, or in
-- milliseconds where the code compares parts of a second (the cache and the lock). The loops are structural
-- recursions, but for these. disconnect_all shortens the list that it runs over: it gets as many rounds as the
-- list has entries, and each round takes one more index, so that they are enough. The scheduler's first tick
-- gets one round for each event, as the code says. The check of a crontab gets four rounds, as each recursion
-- removes one of three delimiters. The data of a bulk request may be a text that holds a text, and so on: they
-- are read in one round more than the text is long, as each text is shorter than the one that holds it
-- (Bulk.Endpoint.Data). The search of nested sets gets one round more than the table has rows, as each one that
-- goes on collects a new row. The lock's retries are the steps of a schedule.
--
-- What is a parameter. Code that is not the repository's: the Tarantool space, the shared cache, Django's request
-- handler, its querysets, managers and lookups, its transactions, sessions and backends, the serializers and views
-- of the REST framework, the validation of data, password hashers, the codes of pyotp, str.format, the hashes of
-- entity tags, Base64, orjson, JOSE, the Centrifugo client, the delivery of a web push, and what the scheduler
-- inherits of Celery. Each is a function or a record of functions, and its documented behaviour, where a theorem
-- needs it, a record of laws that the theorem names; Tests modules fill both with concrete functions.
--
-- What is simplified. A template of let, query or headers that gives no text counts as an error. A row
-- holds null, integers and texts. Identity of objects is modelled only where the code mutates a shared
-- one. A table with a unique key is an association list by this key (Webpush), and the heap of the scheduler a list in
-- order. PATCH with BULK_THREADS runs the operations in a thread pool, which is not modelled.
--
-- What is not modelled: the schema generator, the other serializer fields and the filter backends of the API, the
-- GUI, the translations, the settings, the management commands, the RPC and Celery drivers, and LDAP; they declare
-- data for Django REST framework and other libraries or perform input and output.
mod Base
pub mod Api
pub mod Cache
pub mod Lock
pub mod Bulk
pub mod CustomModel
pub mod Fields
pub mod Filters
pub mod Middleware
pub mod Models
pub mod Notify
pub mod Oauth
pub mod Scheduler
pub mod Users
pub mod Utils
pub mod Webpush
