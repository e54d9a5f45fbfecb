-- ===== src/Pool/Provider.antt =====
-- include/ozo/connection_pool.h and connector.h: a pool as a source of connections, and the provider
-- that binds its arguments. The resource pool is another library's, and a parameter.
use ozo.Prelude.{ℕ, ◌≡◌, Option, some}
use ozo.Errors.Codes.{ErrorCode}
use ozo.Connections.{ConnectionApi, Object}
use ozo.Pool.{acquire}
use ozo.Pool.Acquire.{Answered, IsStored, acquire-Answered}

-- Times are numbers of seconds.
pub record ConnectionPoolConfig : Type 0 where
  pub capacity : ℕ
  pub queue_capacity : ℕ
  pub idle_timeout : ℕ

abbrev pub default_config : ConnectionPoolConfig
default_config = record { capacity = 10; queue_capacity = 128; idle_timeout = 60 }

pub record ConnectionPoolTimeouts : Type 0 where
  pub connect : ℕ
  pub queue : ℕ

abbrev pub default_timeouts : ConnectionPoolTimeouts
default_timeouts = record { connect = 10; queue = 10 }

-- What the resource pool offers: its construction from capacity, queue capacity and idle timeout, and
-- what it calls the handler of a context with, an error code and the content of a handle, where it
-- waits for a time.
pub record ResourcePool (P N : Type 0) : Type 0 where
  pub make_pool : ℕ → ℕ → ℕ → P
  pub get_auto_recycle : P → ℕ → ℕ → ErrorCode × Option (Object N)

-- A source answers in a context, with its additional argument.
abbrev pub Source : Type 0 → Type 0 → Type 0
Source A N = ℕ → A → ErrorCode × Object N

-- `connector`: the source, the context and the argument.
pub record Provider (A N : Type 0) : Type 0 where
  pub base : Source A N
  pub io : ℕ
  pub args : A

-- `connector::async_get_connection`
unfoldable pub async_get_provided : {A N : Type 0} → Provider A N → ErrorCode × Object N
async_get_provided c = c.base c.io c.args

pub record ConnectionPool (P N : Type 0) : Type 0 where
  pub impl : P
  pub source : Source ℕ N

module _ {P N : Type 0} (pools : ResourcePool P N) (api : ConnectionApi N) where
  -- `connection_pool(source, config)`
  unfoldable pub connection_pool : Source ℕ N → ConnectionPoolConfig → ConnectionPool P N
  connection_pool source config = record {
    impl = pools.make_pool config.capacity config.queue_capacity config.idle_timeout;
    source = source;
  }

  -- `connection_pool::operator ()`: what the handler is called with.
  unfoldable pub get_pooled :
      ConnectionPool P N → ℕ → ConnectionPoolTimeouts → Option (ErrorCode × Object N)
  get_pooled pool io timeouts =
      let handle = pools.get_auto_recycle pool.impl io timeouts.queue in
      acquire api io handle.0 handle.1
        (async_get_provided (record { base = pool.source; io = io; args = timeouts.connect }))

  -- Where the resource pool hands out, within the time for the queue, nothing or an object that leads
  -- to a connection with its socket and its timer in one context, and the source answers, within the
  -- time to connect, with an error or with a connection in the context that was asked for and whose
  -- status is not bad, a pool of any configuration calls the handler with an error or with such a
  -- connection.
  get_pooled-Answered :
      (source : Source ℕ N) (config : ConnectionPoolConfig) (io : ℕ)
      (timeouts : ConnectionPoolTimeouts)
      → ((pool : P) → IsStored api io ((pools.get_auto_recycle pool io timeouts.queue).1))
      → Answered api io (source io timeouts.connect)
      → (r : ErrorCode × Object N) × (get_pooled (connection_pool source config) io timeouts
          ≡ some r)
        × Answered api io r
  unfolding get_pooled async_get_provided connection_pool
  get_pooled-Answered source config io timeouts stored answers =
      let pool = connection_pool source config in
      let handle = pools.get_auto_recycle pool.impl io timeouts.queue in
      acquire-Answered api io handle.0 handle.1 (source io timeouts.connect) (stored pool.impl)
        answers
